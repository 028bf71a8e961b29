-- ===== src/Main/Defaults.antt =====
-- cmd/bootcfg/main.go from its flags on.
use coreos_baremetal.Prelude.{◌≡◌, refl, ◌∙◌, sym, inl, inr, Bool, true, false, Option, none, some}
use coreos_baremetal.Prelude.Text.{Text, text}
use coreos_baremetal.Golang.Errors.{ok}
use coreos_baremetal.Sign.Writer.{Signer}
use coreos_baremetal.Http.Routes.{Config}
use coreos_baremetal.Main.{Flags, Environment, serving, default_flags, is_directory, main, program}
use coreos_baremetal.Main.Serving.{Signers, RpcStart, main_serving}

module _ (env : Environment) where
  program_of_flags :
      (parsed flags : Flags)
      → env.parse_flags default_flags ≡ some parsed
      → env.set_flags_from_env parsed (text "BOOTCFG") ≡ ok flags
      → program env ≡ main env flags (env.getenv (text "BOOTCFG_PASSPHRASE"))
  unfolding program
  program_of_flags parsed flags p q = rw (program, p, q) refl

  default-Signers :
      (signer armored : Option Signer) (passphrase : Text)
      → Signers env default_flags passphrase signer armored
      → (signer ≡ none) × (armored ≡ none)
  default-Signers signer armored passphrase (inl (_, s, a)) = (s, a)
  default-Signers signer armored passphrase (inr given) = absurd (given.0 refl)

  default-RpcStart :
      (passphrase : Text) (rpc : Bool) → RpcStart env default_flags passphrase rpc → rpc ≡ false
  default-RpcStart passphrase rpc (inl (_, r)) = r
  default-RpcStart passphrase rpc (inr given) = absurd (given.0 refl)

  -- Where neither the command line nor the environment sets a flag, a run that starts to serve
  -- serves the data directory `/var/lib/bootcfg`, which is a directory, and the assets directory
  -- below it, over HTTP alone, and signs nothing.
  pub default_serving :
      (http : Config) (dir : Text) (rpc : Bool)
      → env.parse_flags default_flags ≡ some default_flags
      → env.set_flags_from_env default_flags (text "BOOTCFG") ≡ ok default_flags
      → program env ≡ serving http dir rpc
      → (dir ≡ text "/var/lib/bootcfg")
        × (is_directory (env.stat (text "/var/lib/bootcfg")) ≡ true)
        × (http ≡ record {
          assets_path = text "/var/lib/bootcfg/assets";
          signer = none;
          armored_signer = none;
        })
        × (rpc ≡ false)
  default_serving http dir rpc p q h =
      let passphrase = env.getenv (text "BOOTCFG_PASSPHRASE") in
      let run = sym (program_of_flags default_flags default_flags p q) ∙ h in
      let (data_path, found, assets, signers, files, started) =
        main_serving env default_flags passphrase http dir rpc run in
      let (signer, armored) = default-Signers http.signer http.armored_signer passphrase signers in
      (
        data_path,
        found,
        λ i. record { assets_path = assets i; signer = signer i; armored_signer = armored i },
        default-RpcStart passphrase rpc started,
      )
