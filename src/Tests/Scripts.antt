-- ===== src/Tests/Scripts.antt =====
-- An iPXE script, as a client reads it.
use coreos_baremetal.Prelude.{◌≡◌, refl, some, [], ◌∷◌}
use coreos_baremetal.Prelude.Text.{Text, text, ◌==◌}
use coreos_baremetal.Golang.Dict.{index}
use coreos_baremetal.Storagepb.Json.{NetBoot}
use coreos_baremetal.Http.Boot.Read.{IsKey, IsPart, read_ipxe, split_at, words, cut}

abbrev boot : NetBoot
boot = record {
  kernel = text "/vmlinuz";
  initrd = text "/a.img" ∷ text "/b.img" ∷ [];
  cmdline = (text "root", text "UUID=1") ∷ (text "quiet", []) ∷ [];
}

read_test :
    read_ipxe (text "#!ipxe\nkernel /vmlinuz quiet root=UUID=1\ninitrd /a.img /b.img \nboot\n")
    ≡ some (
      text "/vmlinuz",
      (text "quiet", []) ∷ (text "root", text "UUID=1") ∷ [],
      text "/a.img" ∷ text "/b.img" ∷ [],
    )
unfolding text read_ipxe split_at words cut ◌==◌
read_test = refl

abbrev Plain : Text → Type 0
Plain key = IsKey key × IsPart (index boot.cmdline key)
