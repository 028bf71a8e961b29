-- ===== src/Http/Boot.antt =====
-- bootcfg/http/ipxe.go and bootcfg/http/grub.go
pub mod Read
pub mod Served
pub mod Provisioned
use coreos_baremetal.Prelude.{Option, none, some, List, [], ◌∷◌, ◌++◌, map, if◌then◌else◌}
use coreos_baremetal.Prelude.Text.{Text, text, ◌==◌}
use coreos_baremetal.Prelude.Text.Order.{text_lt}
use coreos_baremetal.Golang.Errors.{Result, ok, err, failure}
use coreos_baremetal.Golang.Dict.{Dict, index, keys}
use coreos_baremetal.Golang.Sort.{Sorter}
use coreos_baremetal.Golang.Http.{Call, write, write_or_fail, not_found, Request}
use coreos_baremetal.Storagepb.Json.{NetBoot, Profile}
use coreos_baremetal.Http.Context.{Context, profile_from_context}

abbrev pub newline : Text
newline = 10 ∷ []

abbrev pub quote : Text
quote = 34 ∷ []

abbrev pub space : Text
space = 32 ∷ []

-- The texts, one after the other.
unfoldable pub concat : List Text → Text
concat [] = []
concat (s ∷ rest) = s ++ concat rest

-- `{{if $value}}{{$key}}={{$value}}{{else}}{{$key}}{{end}}`
unfoldable pub argument : Text → Text → Text
argument key value = if value == [] then key else key ++ (b'=' ∷ value)

-- The body of `{{range $key, $value := .Cmdline}}` for one key, with what stands around it.
unfoldable pub cmdline_item : Text → Dict Text → Text → Text
cmdline_item around cmdline key = space ++ (around ++ (argument key (index cmdline key) ++ around))

-- `{{range $key, $value := .Cmdline}}`: a template ranges over a map in the order of its keys.
unfoldable pub cmdline_text : Sorter Text → Text → Dict Text → Text
cmdline_text sorter around cmdline =
    concat (map (cmdline_item around cmdline) (sorter.sort text_lt (keys cmdline)))

-- `{{ range $element := .Initrd }}`, with what stands around an element.
unfoldable pub initrd_text : Text → List Text → Text
initrd_text around initrd =
    concat (map (λ element. around ++ (element ++ (around ++ space))) initrd)

abbrev pub nil_pointer : Text
nil_pointer = text "nil pointer evaluating *storagepb.NetBoot.Kernel"

-- `ipxeTemplate`, executed on the boot settings of a profile.
unfoldable pub ipxe_script : Sorter Text → Option NetBoot → Result Text
ipxe_script sorter none = err (failure nil_pointer)
ipxe_script sorter (some boot) = ok (
    text "#!ipxe"
    ++ newline
    ++ text "kernel "
    ++ boot.kernel
    ++ cmdline_text sorter [] boot.cmdline
    ++ newline
    ++ text "initrd "
    ++ initrd_text [] boot.initrd
    ++ newline
    ++ text "boot"
    ++ newline)

-- `grubTemplate`, executed on the boot settings of a profile.
unfoldable pub grub_config : Sorter Text → Option NetBoot → Result Text
grub_config sorter none = err (failure nil_pointer)
grub_config sorter (some boot) = ok (
    text "default=0"
    ++ newline
    ++ text "timeout=1"
    ++ newline
    ++ (text "menuentry " ++ quote ++ text "CoreOS" ++ quote ++ text " {" ++ newline)
    ++ (text "echo " ++ quote ++ text "Loading kernel" ++ quote ++ newline)
    ++ (text "linuxefi " ++ quote ++ boot.kernel ++ quote)
    ++ (cmdline_text sorter quote boot.cmdline ++ newline)
    ++ (text "echo " ++ quote ++ text "Loading initrd" ++ quote ++ newline)
    ++ (text "initrdefi " ++ initrd_text quote boot.initrd ++ newline)
    ++ text "}"
    ++ newline)

-- `ipxeBootstrap`
abbrev pub ipxe_bootstrap : Text
ipxe_bootstrap =
    text "#!ipxe"
    ++ newline
    ++ text "chain ipxe?uuid=${uuid}&mac=${net0/mac:hexhyp}&domain=${domain}&hostname=${hostname}"
    ++ text "&serial=${serial}"
    ++ newline

-- `ipxeInspect`
unfoldable pub ipxe_inspect : Context → Request → Option (List Call)
ipxe_inspect ctx req = some (write ipxe_bootstrap ∷ [])

module _ (sorter : Sorter Text) where
  -- `(*Server).ipxeHandler`
  unfoldable pub ipxe_handler : Context → Request → Option (List Call)
  ipxe_handler ctx req = elim (profile_from_context ctx) [
    | err e ↦ some not_found
    | ok profile ↦ elim (ipxe_script sorter profile.boot) [
      | err e ↦ some not_found
      | ok script ↦ some (write_or_fail script ∷ [])
    ]
  ]

  -- `(*Server).grubHandler`
  unfoldable pub grub_handler : Context → Request → Option (List Call)
  grub_handler ctx req = elim (profile_from_context ctx) [
    | err e ↦ some not_found
    | ok profile ↦ elim (grub_config sorter profile.boot) [
      | err e ↦ some not_found
      | ok config ↦ some (write_or_fail config ∷ [])
    ]
  ]
