-- ===== src/Tests/Booting.antt =====
-- The boot endpoints over a store in maps.
use mathlib.Core.List.{Mem, mem-cons, not-mem-nil}
use mathlib.Core.Logic.Or
use coreos_baremetal.Http.Parse.{labels_from_request}
use coreos_baremetal.Prelude.Text.{Text, text, ◌==◌}
use coreos_baremetal.Storagepb.Group.{matches, mac_key, by_reqs_less}
use coreos_baremetal.Http.Handlers.{pixiecore_handler}
use coreos_baremetal.Testfakes.Fixed.{fixed_store}
use coreos_baremetal.Golang.Http.{Request, write_or_fail, not_found}
use coreos_baremetal.Tests.Samples.{region, sorts}
use coreos_baremetal.Tests.Web.{query, cloudy, json}
use coreos_baremetal.Prelude.{true, false, List, ◌≡◌, ◌⊎◌, refl, none, some, ◌∷◌, []}
use coreos_baremetal.Golang.Errors.{Error, ok, err}
use coreos_baremetal.Golang.FilePath.{
  base, clean, split_slash, is_rooted, pop, push, resolve, render,
}
use coreos_baremetal.Golang.Mac.{
  mac_string, parse_mac, parse_by_separator, read_pairs, hex_pair, hex_value,
}
use coreos_baremetal.Storagepb.Json.{Profile, NetBoot, Group}
use coreos_baremetal.Server.{select_profile, new_server}
use coreos_baremetal.Http.Context.{background}
use coreos_baremetal.Http.Render.{render_json}
use coreos_baremetal.Http.Boot.{ipxe_script, grub_config, ipxe_handler, grub_handler}
use coreos_baremetal.Http.Boot.Served.{by_profile, boot_served, pixiecore_selects}

boot_served_example :
    ((p : Profile) × (b : NetBoot) × (script : Text) × (config : Text) × (select_profile fixed_store
          sorts cloudy
          (some (labels_from_request query))
        ≡ ok p)
      × (p.boot ≡ some b)
      × (ipxe_script sorts.texts (some b) ≡ ok script)
      × (grub_config sorts.texts (some b) ≡ ok config)
      × (by_profile (new_server fixed_store sorts) cloudy query (ipxe_handler sorts.texts)
          ≡ some (write_or_fail script ∷ []))
      × (by_profile (new_server fixed_store sorts) cloudy query (grub_handler sorts.texts)
          ≡ some (write_or_fail config ∷ [])))
    ⊎ ((((e : Error) × (select_profile fixed_store sorts cloudy (some (labels_from_request query))
              ≡ err e))
          ⊎ ((p : Profile) × (select_profile fixed_store sorts cloudy
                  (some (labels_from_request query))
                ≡ ok p)
              × (p.boot ≡ none)))
        × (by_profile (new_server fixed_store sorts) cloudy query (ipxe_handler sorts.texts)
            ≡ some not_found)
        × (by_profile (new_server fixed_store sorts) cloudy query (grub_handler sorts.texts)
            ≡ some not_found))
boot_served_example = boot_served (new_server fixed_store sorts) cloudy query sorts.texts

abbrev boot_request : Request
boot_request = record query { path = text "/pixiecore/v1/boot/52:da:00:89:d8:10" }

pixiecore_selects_example :
    pixiecore_handler (new_server fixed_store sorts) cloudy json background boot_request
    ≡ (elim (select_profile fixed_store sorts cloudy
        (some ((mac_key, mac_string (82 ∷ 218 ∷ 0 ∷ 137 ∷ 216 ∷ 16 ∷ [])) ∷ []))) [
          | ok p ↦ some (render_json (json.marshal_boot p.boot))
          | err e ↦ some not_found
        ])
unfolding base clean split_slash is_rooted pop push resolve render parse_mac parse_by_separator
    read_pairs hex_pair hex_value text ◌==◌
pixiecore_selects_example =
    pixiecore_selects fixed_store sorts cloudy boot_request json
      (82 ∷ 218 ∷ 0 ∷ 137 ∷ 216 ∷ 16 ∷ []) refl

abbrev pub first_boot : Request
first_boot = record query { path = text "/ipxe"; query = (text "region", text "a" ∷ []) ∷ [] }

Group-set : IsSet Group
Group-set = hlevel

-- No group is listed after the puts but the one that was put.
pub alone :
    (groups : List Group) (x : Group)
    → ok (region ∷ []) ≡ ok groups
    → Mem x groups
    → matches x (some (labels_from_request first_boot)) ≡ true
    → by_reqs_less sorts.texts x region ≡ false
    → x ≡ region
alone groups x h m f r =
    let same : groups ≡ region ∷ [] = cc in
    Or.elim (Group-set x region) (mem-cons.0 (rw same at m)) (λ e. e)
      (λ none'. absurd (not-mem-nil none'))
