-- ===== src/Tests/Commands.antt =====
-- The commands of bootcmd, over the services of a store in maps.
use coreos_baremetal.Prelude.{
  ◌≡◌, ◌≢◌, ◌⊎◌, refl, Option, none, some, List, [], ◌∷◌, if◌then◌else◌, eqb,
}
use coreos_baremetal.Prelude.Text.{Text, text, ◌==◌, to_lower}
use coreos_baremetal.Golang.Errors.{ok, Result}
use coreos_baremetal.Golang.Dict.{insert}
use coreos_baremetal.Storagepb.Json.{Json}
use coreos_baremetal.Storagepb.Group.{
  assert_valid, parse_group, to_group, normalize, normalize_entries,
}
use coreos_baremetal.Server
use coreos_baremetal.Server.{new_server}
use coreos_baremetal.Rpc
use coreos_baremetal.Rpc.{grpc_error}
use coreos_baremetal.Testfakes.Fixed
use coreos_baremetal.Testfakes.Fixed.{fixed_store, new_fixed_store}
use coreos_baremetal.Cli.{
  run_group_put, load_group, create_command, must_client_from_cmd, endpoints_from_cmd,
  tls_info_from_cmd, returned, helped,
}
use coreos_baremetal.Cli.Commands.{
  Commands, end, registered, CobraCommand, Invocation, root_command, Runtime, Handler, bootcmd,
  ended, printed, run_handler, display_version_text,
}
use coreos_baremetal.Cli.Changes.{bootcmd_changes, Sends}
use coreos_baremetal.Tests.Samples.{sorts, region, worker, one_value}
use coreos_baremetal.Tests.Running.{command}

abbrev json : Json
json = one_value region worker

-- `create` stores the group of the file.
create_test :
    run_group_put command json (new_server fixed_store sorts) new_fixed_store (text "one.json") []
    ≡ (record new_fixed_store { groups = (text "one", region) ∷ [] }, returned)
unfolding run_group_put create_command must_client_from_cmd endpoints_from_cmd tls_info_from_cmd
    load_group Rpc.group_put Server.group_put Fixed.group_put assert_valid parse_group to_group
    normalize normalize_entries to_lower text ◌==◌ insert grpc_error
create_test = refl

-- The first word of a command's use line is its name.
abbrev first_word : Text → Text
first_word [] = []
first_word (c ∷ rest) = let word = first_word rest in if eqb c 32 then [] else c ∷ word

-- A reading of command lines that knows the whole names alone.
abbrev named : Commands → List Text → Option CobraCommand
named end names = none
named (registered c below beside) [] = none
named (registered c below beside) (name ∷ names) =
    let deeper = named below names in
    let other = named beside (name ∷ names) in
    if first_word c.use_line == name
    then (elim names [ [] ↦ some c | next ∷ rest ↦ deeper ])
    else other

abbrev with_file : Option CobraCommand → Option Invocation
with_file none = none
with_file (some c) = some (record { cobra_command = c; filename = text "one.json"; args = [] })

abbrev find : Commands → List Text → Result (Option Invocation)
find tree argv = ok (with_file (named tree (text "bootcmd" ∷ argv)))

abbrev runtime : Runtime
runtime = record { go_version = text "go1.6"; goos = text "linux"; goarch = text "amd64" }

-- The names of a path in the tree lead to the function that its last command runs.
tree_tests :
    (bootcmd runtime command json
        (new_server fixed_store sorts)
        find
        new_fixed_store
        (text "instance" ∷ text "list" ∷ [])
      ≡ (new_fixed_store, printed (text "not implemented\n")))
    × (bootcmd runtime command json
          (new_server fixed_store sorts)
          find
          new_fixed_store
          (text "profile" ∷ [])
        ≡ (new_fixed_store, ended helped))
    × (bootcmd runtime command json
          (new_server fixed_store sorts)
          find
          new_fixed_store
          (text "group" ∷ text "create" ∷ [])
        ≡ (record new_fixed_store { groups = (text "one", region) ∷ [] }, ended returned))
unfolding text ◌==◌ bootcmd run_handler run_group_put create_command must_client_from_cmd
    endpoints_from_cmd tls_info_from_cmd load_group Rpc.group_put Server.group_put Fixed.group_put
    assert_valid parse_group to_group normalize normalize_entries to_lower insert grpc_error
tree_tests = (refl, refl, refl)

version_test :
    display_version_text runtime
    ≡ text "bootcmd Version: was not built properly\nGo Version: go1.6\nGo OS/Arch: linux/amd64\n"
unfolding text display_version_text
version_test = refl

bootcmd_changes_example :
    ((bootcmd runtime command json
        (new_server fixed_store sorts)
        find
        new_fixed_store
        (text "group" ∷ text "create" ∷ [])).0
      ≡ new_fixed_store)
    ⊎ ((call : Invocation) × (handler : Handler) × (find root_command
            (text "group" ∷ text "create" ∷ [])
          ≡ ok (some call))
        × (call.cobra_command.handler ≡ some handler)
        × (call.filename ≢ [])
        × (call.args ≡ [])
        × Sends command json (new_server fixed_store sorts) new_fixed_store call.filename handler (
            bootcmd runtime command json
              (new_server fixed_store sorts)
              find
              new_fixed_store
              (text "group" ∷ text "create" ∷ [])))
bootcmd_changes_example =
    bootcmd_changes command json (new_server fixed_store sorts) new_fixed_store runtime find
      (text "group" ∷ text "create" ∷ [])
