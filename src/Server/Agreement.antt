-- ===== src/Server/Agreement.antt =====
-- `SelectGroup` of bootcfg/server/server.go over two stores, with two sorts.
use mathlib.Core.List.{Perm}
use mathlib.Core.List.Perm
use coreos_baremetal.Prelude.{◌≡◌, List, length, ◌∙◌}
use coreos_baremetal.Prelude.Text.{Text}
use coreos_baremetal.Golang.Errors.{ok}
use coreos_baremetal.Golang.Sort.{Sorter}
use coreos_baremetal.Storagepb.Json.{Group}
use coreos_baremetal.Storagepb.Group.{by_reqs_less, selector_string}
use coreos_baremetal.Storagepb.Group.Selectors.{by_reqs_less_ties, selector_string-perm}
use coreos_baremetal.Storage.Store.{Store}
use coreos_baremetal.Server.{Labels, Sorts, select_group}
use coreos_baremetal.Server.Selection.{select_group-IsBest}

by_reqs_less-eq : (s t : Sorter Text) (g h : Group) → by_reqs_less s g h ≡ by_reqs_less t g h
unfolding by_reqs_less
by_reqs_less-eq s t g h =
    rw (selector_string-perm s t g g Perm.rfl, selector_string-perm s t h h Perm.rfl)

-- Two servers, whose stores list the same groups in any order and which sort in any way, and which
-- both select a group, select groups with as many requirements and the same selector text.
pub select_group_agree :
    (store store' : Store) (sorts sorts' : Sorts) (s : store.State) (s' : store'.State)
    (labels : Labels) (groups groups' : List Group) (g g' : Group)
    → store.group_list s ≡ ok groups
    → store'.group_list s' ≡ ok groups'
    → Perm groups groups'
    → select_group store sorts s labels ≡ ok g
    → select_group store' sorts' s' labels ≡ ok g'
    → (length g.selector ≡ length g'.selector)
      × (selector_string sorts.texts g ≡ selector_string sorts.texts g')
select_group_agree store store' sorts sorts' s s' labels groups groups' g g' h h' p e e' =
    let b = select_group-IsBest store sorts s labels groups g h e in
    let b' = select_group-IsBest store' sorts' s' labels groups' g' h' e' in
    (by_reqs_less_ties sorts.texts g g').0 (
      b.highest g' ((Perm.mem_iff p).1 b'.listed) b'.matched,
      by_reqs_less-eq sorts.texts sorts'.texts g' g
          ∙ b'.highest g ((Perm.mem_iff p).0 b.listed) b.matched,
    )
