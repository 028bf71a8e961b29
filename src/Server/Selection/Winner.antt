-- ===== src/Server/Selection/Winner.antt =====
-- `SelectGroup` of bootcfg/server/server.go where one group is above all others that match.
use mathlib.Core.List.{Mem}
use coreos_baremetal.Prelude.{◌≡◌, true, false, ap, ◌∙◌, List}
use coreos_baremetal.Golang.Errors.{ok}
use coreos_baremetal.Storagepb.Json.{Group}
use coreos_baremetal.Storagepb.Group.{matches, by_reqs_less}
use coreos_baremetal.Storage.Store.{Store}
use coreos_baremetal.Server.{Labels, Sorts, select_group}
use coreos_baremetal.Server.Selection.{select_group-IsBest, select_group_found}

module _ (store : Store) (sorts : Sorts) (s : store.State) (labels : Labels) where
  -- The one group above all others that match is selected.
  pub select_group_wins :
      (groups : List Group) (g : Group)
      → store.group_list s ≡ ok groups
      → Mem g groups
      → matches g labels ≡ true
      → ((h : Group)
          → Mem h groups
          → matches h labels ≡ true
          → by_reqs_less sorts.texts h g ≡ false
          → h ≡ g)
      → select_group store sorts s labels ≡ ok g
  select_group_wins groups g h m f above =
      let (c, q) = select_group_found store sorts s labels groups g h m f in
      let best = select_group-IsBest store sorts s labels groups c h q in
      q ∙ ap ok (above c best.listed best.matched (best.highest g m f))
