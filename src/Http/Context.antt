-- ===== src/Http/Context.antt =====
-- bootcfg/http/context.go: a `context.Context` as the values stored in it, the last one outermost.
use coreos_baremetal.Prelude.{◌≡◌, refl}
use coreos_baremetal.Golang.Errors.{Result, ok, err, no_profile_from_context, no_group_from_context}
use coreos_baremetal.Storagepb.Json.{Group, Profile}

pub data Context : Type 0 where
  background : Context
  profile_value : Profile → Context → Context
  group_value : Group → Context → Context

-- `withProfile`
unfoldable pub with_profile : Context → Profile → Context
with_profile ctx profile = profile_value profile ctx

-- `profileFromContext`: the innermost value under `profileKey`.
unfoldable pub profile_from_context : Context → Result Profile
profile_from_context background = err no_profile_from_context
profile_from_context (profile_value profile ctx) = ok profile
profile_from_context (group_value group ctx) = profile_from_context ctx

-- `withGroup`
unfoldable pub with_group : Context → Group → Context
with_group ctx group = group_value group ctx

-- `groupFromContext`
unfoldable pub group_from_context : Context → Result Group
group_from_context background = err no_group_from_context
group_from_context (profile_value profile ctx) = group_from_context ctx
group_from_context (group_value group ctx) = ok group

-- A stored profile is the one that is read back, and it leaves the group alone; and the same the
-- other way round.
pub context_values :
    (ctx : Context) (p : Profile) (g : Group)
    → (profile_from_context (with_profile ctx p) ≡ ok p)
      × (group_from_context (with_profile ctx p) ≡ group_from_context ctx)
      × (group_from_context (with_group ctx g) ≡ ok g)
      × (profile_from_context (with_group ctx g) ≡ profile_from_context ctx)
unfolding with_profile profile_from_context with_group group_from_context
context_values ctx p g = (refl, refl, refl, refl)
