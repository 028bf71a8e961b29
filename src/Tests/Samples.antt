-- ===== src/Tests/Samples.antt =====
-- Sample groups and profiles, a sort and a codec to run the model with.
use coreos_baremetal.Prelude.{none, some, [], ◌∷◌}
use coreos_baremetal.Prelude.Text.{text}
use coreos_baremetal.Golang.Errors.{ok}
use coreos_baremetal.Golang.Sort.Insertion.{insertion_sorter}
use coreos_baremetal.Storagepb.Json.{Group, Profile, RichGroup, Json, end}
use coreos_baremetal.Server.{Sorts}

abbrev pub sorts : Sorts
sorts = record { texts = insertion_sorter; groups = insertion_sorter }

abbrev pub region : Group
region = record {
  id = text "one";
  name = text "one selector";
  profile = text "p1";
  selector = (text "region", text "a") ∷ [];
  metadata = none;
}

abbrev pub node : Group
node = record {
  id = text "node1";
  name = text "two selectors";
  profile = text "p2";
  selector = (text "region", text "a") ∷ (text "MAC", text "52-DA-00-89-D8-10") ∷ [];
  metadata = none;
}

abbrev pub rich_of : Group → RichGroup
rich_of g = record {
  id = g.id;
  name = g.name;
  profile = g.profile;
  selector = g.selector;
  metadata = none;
}

abbrev pub worker : Profile
worker = record {
  id = text "p1";
  name = text "worker";
  ignition_id = text "worker.yaml";
  cloud_id = [];
  boot = some (record { kernel = text "/vmlinuz"; initrd = []; cmdline = [] });
  generic_id = [];
}

-- A codec that writes every group as the same text, and reads `g` and `p` from any text.
abbrev pub one_value : Group → Profile → Json
one_value g p = record {
  unmarshal_group = λ data'. ok (rich_of g);
  marshal_group = λ rich. ok (text "{}");
  unmarshal_profile = λ data'. ok p;
  marshal_profile = λ q. ok (text "{}");
  unmarshal_object = λ fields data'. ok (some end);
  marshal_object = λ fields. ok (text "{}");
  marshal_boot = λ boot. ok (text "{}");
}
