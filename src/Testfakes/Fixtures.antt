-- ===== src/Testfakes/Fixtures.antt =====
-- bootcfg/storage/testfakes/fixtures.go: the resources that the program's own tests use
use coreos_baremetal.Prelude.{none, some, List, [], ◌∷◌, ◌++◌}
use coreos_baremetal.Prelude.Text.{Text, text}
use coreos_baremetal.Storagepb.Json.{Group, Profile}

-- A text as lines, each with its line feed.
unfoldable pub lines : List Text → Text
lines [] = []
lines (l ∷ rest) = l ++ (10 ∷ lines rest)

-- `Group`
abbrev pub test_group : Group
test_group = record {
  id = text "test-group";
  name = text "test group";
  profile = text "g1h2i3j4";
  selector = (text "uuid", text "a1b2c3d4") ∷ [];
  metadata = some (text "{\"pod_network\":\"10.2.0.0/16\",\"service_name\":\"etcd2\"}");
}

-- `GroupNoMetadata`
abbrev pub group_no_metadata : Group
group_no_metadata = record {
  id = text "group-no-metadata";
  name = [];
  profile = [];
  selector = (text "uuid", text "a1b2c3d4") ∷ [];
  metadata = none;
}

-- `Profile`
abbrev pub test_profile : Profile
test_profile = record {
  id = text "g1h2i3j4";
  name = [];
  ignition_id = text "ignition.tmpl";
  cloud_id = text "cloud-config.tmpl";
  boot = some (record {
    kernel = text "/image/kernel";
    initrd = text "/image/initrd_a" ∷ text "/image/initrd_b" ∷ [];
    cmdline = (text "a", text "b") ∷ (text "c", []) ∷ [];
  });
  generic_id = text "generic.tmpl";
}

-- `IgnitionYAMLName` and `IgnitionYAML`
abbrev pub ignition_yaml_name : Text
ignition_yaml_name = text "ignition.tmpl"

abbrev pub ignition_yaml : Text
ignition_yaml = lines (
    text "ignition_version: 1"
    ∷ text "systemd:"
    ∷ text "  units:"
    ∷ text "    - name: etcd2.service"
    ∷ text "      enable: true"
    ∷ [])

-- `CloudYAMLName` and `CloudYAML`
abbrev pub cloud_yaml_name : Text
cloud_yaml_name = text "ignition.tmpl"

abbrev pub cloud_yaml : Text
cloud_yaml = lines (
    text "users:"
    ∷ text "  - name: demo"
    ∷ text "    shell: /bin/bash"
    ∷ text "runcmd:"
    ∷ text "  - touch /tmp/test.txt"
    ∷ [])
