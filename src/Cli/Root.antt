-- ===== src/Cli/Root.antt =====
-- bootcfg/cli/root.go: the flags that every command of `bootcmd` takes, and how the program ends.
use coreos_baremetal.Prelude.{Option, none, some, List, [], ◌∷◌}
use coreos_baremetal.Prelude.Text.{Text, text}
use coreos_baremetal.Golang.Errors.{Error}
use coreos_baremetal.Cli.{Outcome, returned, exited}

-- `globalFlags`
pub record GlobalFlags : Type 0 where
  pub endpoints : List Text
  pub ca_file : Text
  pub cert_file : Text
  pub key_file : Text

-- The defaults that `init` registers.
abbrev pub global_flags : GlobalFlags
global_flags = record {
  endpoints = text "127.0.0.1:8081" ∷ [];
  ca_file = text "/etc/bootcfg/ca.crt";
  cert_file = text "/etc/bootcfg/client.crt";
  key_file = text "/etc/bootcfg/client.key";
}

-- `Execute`, given the error of `RootCmd.Execute`: the status -1 is 255 to the caller.
unfoldable pub execute : Option Error → Outcome
execute none = returned
execute (some e) = exited 255
