-- ===== src/Cli/Commands.antt =====
-- The tree of commands that the files of bootcfg/cli register with cobra, and a run of `bootcmd`
-- (cmd/bootcmd/main.go).
use coreos_baremetal.Prelude.{Option, none, some, List, ◌++◌}
use coreos_baremetal.Prelude.Text.{Text, text}
use coreos_baremetal.Golang.Errors.{Result, ok, err}
use coreos_baremetal.Storagepb.Json.{Json}
use coreos_baremetal.Server.{Core}
use coreos_baremetal.Cli.{
  Command, Outcome, helped, run_group_put, run_group_describe, run_group_list, run_profile_put,
  run_profile_describe, run_profile_list, run_ignition_put,
}
use coreos_baremetal.Cli.Root.{execute}

-- The functions that the commands name as `Run`; `not_implemented` is the one that
-- instance_list.go writes in place.
pub data Handler : Type 0 where
  group_put group_describe group_list : Handler
  profile_put profile_describe profile_list : Handler
  ignition_put not_implemented display_version : Handler

-- The fields of a `cobra.Command` that the program sets.
pub record CobraCommand : Type 0 where
  pub use_line : Text
  pub short : Text
  pub long : Text
  pub handler : Option Handler

-- Commands with the subcommands that `AddCommand` has given each.
pub data Commands : Type 0 where
  end : Commands
  registered : CobraCommand → Commands → Commands → Commands

-- `groupCmd`
abbrev pub group_cmd : CobraCommand
group_cmd = record {
  use_line = text "group";
  short = text "Manage machine groups";
  long = text "List and describe machine groups";
  handler = none;
}

-- `groupPutCmd`
abbrev pub group_put_cmd : CobraCommand
group_put_cmd = record {
  use_line = text "create --file FILENAME";
  short = text "Create a machine group";
  long = text "Create a machine group";
  handler = some group_put;
}

-- `groupDescribeCmd`
abbrev pub group_describe_cmd : CobraCommand
group_describe_cmd = record {
  use_line = text "describe GROUP_ID";
  short = text "Describe a machine group";
  long = text "Describe a machine group";
  handler = some group_describe;
}

-- `groupListCmd`
abbrev pub group_list_cmd : CobraCommand
group_list_cmd = record {
  use_line = text "list";
  short = text "List machine groups";
  long = text "List machine groups";
  handler = some group_list;
}

-- `ignitionCmd`
abbrev pub ignition_cmd : CobraCommand
ignition_cmd = record {
  use_line = text "ignition";
  short = text "Manage Ignition templates";
  long = text "Manage Ignition templates";
  handler = none;
}

-- `ignitionPutCmd`
abbrev pub ignition_put_cmd : CobraCommand
ignition_put_cmd = record {
  use_line = text "create --file FILENAME";
  short = text "Create an Ignition template";
  long = text "Create an Ignition template";
  handler = some ignition_put;
}

-- `instanceCmd`
abbrev pub instance_cmd : CobraCommand
instance_cmd = record {
  use_line = text "instance";
  short = text "View observed machine instances";
  long = text "View observed machine instances";
  handler = none;
}

-- `instanceListCmd`
abbrev pub instance_list_cmd : CobraCommand
instance_list_cmd = record {
  use_line = text "list";
  short = text "List observed machine instances";
  long = text "List observed machine instances";
  handler = some not_implemented;
}

-- `profileCmd`
abbrev pub profile_cmd : CobraCommand
profile_cmd = record {
  use_line = text "profile";
  short = text "Manage machine profiles";
  long = text "List and describe machine profiles";
  handler = none;
}

-- `profilePutCmd`
abbrev pub profile_put_cmd : CobraCommand
profile_put_cmd = record {
  use_line = text "create --file FILENAME";
  short = text "Create a machine profile";
  long = text "Create a machine profile";
  handler = some profile_put;
}

-- `profileDescribeCmd`
abbrev pub profile_describe_cmd : CobraCommand
profile_describe_cmd = record {
  use_line = text "describe PROFILE_ID";
  short = text "Describe a machine profile";
  long = text "Describe a machine profile";
  handler = some profile_describe;
}

-- `profileListCmd`
abbrev pub profile_list_cmd : CobraCommand
profile_list_cmd = record {
  use_line = text "list";
  short = text "List machine profiles";
  long = text "List machine profiles";
  handler = some profile_list;
}

-- `RootCmd`
abbrev pub root_cmd : CobraCommand
root_cmd = record {
  use_line = text "bootcmd";
  short = text "A command line client for the bootcfg service.";
  long =
      text
        "A CLI for the bootcfg Service\n\nTo get help about a resource or command, run \"bootcmd help resource\"";
  handler = none;
}

-- `versionCmd`
abbrev pub version_cmd : CobraCommand
version_cmd = record {
  use_line = text "version";
  short = text "Print the version and exit";
  long = text "Print the version of the bootcmd client";
  handler = some display_version;
}

-- The tree that the `init` functions make, in the order of their files.
abbrev pub group_tree : Commands → Commands
group_tree = registered group_cmd (
    registered group_put_cmd end
      (registered group_describe_cmd end (registered group_list_cmd end end)))

abbrev pub ignition_tree : Commands → Commands
ignition_tree = registered ignition_cmd (registered ignition_put_cmd end end)

abbrev pub instance_tree : Commands → Commands
instance_tree = registered instance_cmd (registered instance_list_cmd end end)

abbrev pub profile_tree : Commands → Commands
profile_tree = registered profile_cmd (
    registered profile_put_cmd end
      (registered profile_describe_cmd end (registered profile_list_cmd end end)))

abbrev pub root_command : Commands
root_command =
    registered root_cmd
      (group_tree (ignition_tree (instance_tree (profile_tree (registered version_cmd end end)))))
      end

-- `version`, as it is without flags of the linker.
abbrev pub version : Text
version = text "was not built properly"

-- `runtime.Version()`, `runtime.GOOS` and `runtime.GOARCH`
pub record Runtime : Type 0 where
  pub go_version : Text
  pub goos : Text
  pub goarch : Text

-- What `displayVersion` prints.
unfoldable pub display_version_text : Runtime → Text
display_version_text rt =
    text "bootcmd Version: "
    ++ version
    ++ text "\nGo Version: "
    ++ rt.go_version
    ++ text "\nGo OS/Arch: "
    ++ rt.goos
    ++ text "/"
    ++ rt.goarch
    ++ text "\n"

-- What a run of `bootcmd` ends with: as a command does, or with a printed text.
pub data Ending : Type 0 where
  ended : Outcome → Ending
  printed : Text → Ending

-- What cobra makes of a command line: a command with the `filename` flag and the arguments.
pub record Invocation : Type 0 where
  pub cobra_command : CobraCommand
  pub filename : Text
  pub args : List Text

module _ (rt : Runtime) (cmd : Command) (json : Json) (core : Core) where
  open core use {State}

  abbrev ends : State × Outcome → State × Ending
  ends (s, o) = (s, ended o)

  -- The call of a command's `Run`.
  unfoldable pub run_handler : Handler → State → Text → List Text → State × Ending
  run_handler group_put s filename args = ends (run_group_put cmd json core s filename args)
  run_handler group_describe s filename args = ends (run_group_describe cmd json core s args)
  run_handler group_list s filename args = ends (run_group_list cmd json core s)
  run_handler profile_put s filename args = ends (run_profile_put cmd json core s filename args)
  run_handler profile_describe s filename args = ends (run_profile_describe cmd json core s args)
  run_handler profile_list s filename args = ends (run_profile_list cmd json core s)
  run_handler ignition_put s filename args = ends (run_ignition_put cmd json core s filename args)
  run_handler not_implemented s filename args = (s, printed (text "not implemented\n"))
  run_handler display_version s filename args = (s, printed (display_version_text rt))

  -- A run of `bootcmd`, where `find` is what cobra makes of the command line: an error, help
  -- (`none`), or an invocation. A command without `Run` shows its help.
  unfoldable pub bootcmd :
      (Commands → List Text → Result (Option Invocation)) → State → List Text → State × Ending
  bootcmd find s argv = elim (find root_command argv) [
    | err e ↦ (s, ended (execute (some e)))
    | ok found ↦ elim found [
      | none ↦ (s, ended helped)
      | some call ↦ elim call.cobra_command.handler [
        | none ↦ (s, ended helped)
        | some handler ↦ run_handler handler s call.filename call.args
      ]
    ]
  ]
