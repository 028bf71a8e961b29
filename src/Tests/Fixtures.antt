-- ===== src/Tests/Fixtures.antt =====
-- The program's own test fixtures, in the store and through the endpoints that its tests call.
use coreos_baremetal.Prelude.{◌≡◌, refl, none, some, [], ◌∷◌, ◌++◌, true, false, map}
use coreos_baremetal.Prelude.Text.{Text, text, ◌==◌, to_lower}
use coreos_baremetal.Golang.Errors.{ok, profile_required}
use coreos_baremetal.Storagepb.Group.{assert_valid, matches, matches_all}
use coreos_baremetal.Storagepb.Profile.{assert_valid_profile}
use coreos_baremetal.Testfakes.Fixtures.{test_group, group_no_metadata, test_profile, lines}
use coreos_baremetal.Http.Boot.{
  ipxe_script, ipxe_handler, cmdline_text, concat, cmdline_item, argument, initrd_text,
}
use coreos_baremetal.Prelude.Text.Order.{text_lt}
use coreos_baremetal.Golang.Dict.{Dict, lookup, insert}
use coreos_baremetal.Golang.Sort.Insertion.{insertion_sort}
use coreos_baremetal.Golang.Http.{Request, write, write_or_fail, set_header}
use coreos_baremetal.Storagepb.Json.{Group, Json, field, string, object, end}
use coreos_baremetal.Http.Context.{
  background, with_profile, with_group, profile_from_context, group_from_context,
}
use coreos_baremetal.Http.Metadata.{
  metadata_handler, render_as_env_file, env_line, to_upper, env_strings,
}
use coreos_baremetal.Http.Parse
use coreos_baremetal.Http.Parse.{
  collect_variables, set_field, set_selectors, request_variables, labels_from_request,
  collect_labels,
}
use coreos_baremetal.Golang.Mac.{
  parse_mac, parse_by_separator, hex_digit, hex_pair, hex_value, mac_string, read_pairs,
}
use coreos_baremetal.Tests.Samples.{sorts, one_value}

-- The group and the profile are valid; the group without metadata names no profile.
valid_test :
    (assert_valid test_group ≡ none)
    × (assert_valid_profile test_profile ≡ none)
    × (assert_valid group_no_metadata ≡ some profile_required)
unfolding assert_valid assert_valid_profile text ◌==◌
valid_test = (refl, refl, refl)

abbrev request : Request
request = record { method = text "GET"; path = text "/"; query = []; raw_query = []; header = [] }

-- TestIPXEHandler of bootcfg/http/ipxe_test.go
script_test :
    ipxe_handler sorts.texts (with_profile background test_profile) request
    ≡ some (
        write_or_fail (
          lines (
            text "#!ipxe"
            ∷ text "kernel /image/kernel a=b c"
            ∷ text "initrd /image/initrd_a /image/initrd_b "
            ∷ text "boot"
            ∷ []))
        ∷ [])
unfolding ipxe_handler ipxe_script profile_from_context with_profile lines text cmdline_text concat
    insertion_sort text_lt cmdline_item argument ◌==◌ lookup initrd_text
script_test = refl

-- TestGroupMatches of bootcfg/storage/storagepb/group_test.go
abbrev selecting : Dict Text → Group
selecting selector = record test_group { selector = selector }

matches_test :
    (matches (selecting ((text "a", text "b") ∷ [])) (some ((text "a", text "b") ∷ [])) ≡ true)
    × (matches (selecting ((text "a", text "c") ∷ [])) (some ((text "a", text "b") ∷ [])) ≡ false)
    × (matches
          (selecting ((text "uuid", text "a") ∷ []))
          (some ((text "uuid", text "a") ∷ (text "mac", text "b") ∷ []))
        ≡ true)
    × (matches
          (selecting ((text "uuid", text "a") ∷ (text "mac", text "b") ∷ []))
          (some ((text "uuid", text "a") ∷ []))
        ≡ false)
unfolding matches matches_all lookup text ◌==◌
matches_test = (refl, refl, refl, refl)

-- TestMetadataHandler of bootcfg/http/metadata_test.go: the metadata, as `json.Unmarshal` decodes
-- it, the selector and the query, each line of which the test looks for.
abbrev metadata_group : Group
metadata_group = record test_group {
  selector = (text "mac", text "52:54:00:a1:9c:ae") ∷ [];
  metadata = some (text "{}");
}

abbrev metadata_json : Json
metadata_json = record (one_value test_group test_profile) {
  unmarshal_object = λ fields data'. ok (
      some (
        field (text "meta") (string (text "data")) (
          field (text "etcd") (object (field (text "name") (string (text "node1")) end)) (
            field (text "some")
              (object (
                field (text "nested")
                  (object (field (text "data") (string (text "some-value")) end)) end))
              fields))));
}

abbrev metadata_request : Request
metadata_request = record {
  method = text "GET";
  path = text "/";
  query =
      (text "mac", text "52-54-00-a1-9c-ae" ∷ [])
      ∷ (text "foo", text "bar" ∷ [])
      ∷ (text "count", text "3" ∷ [])
      ∷ (text "gate", text "true" ∷ [])
      ∷ [];
  raw_query = text "mac=52-54-00-a1-9c-ae&foo=bar&count=3&gate=true";
  header = [];
}

metadata_test :
    metadata_handler metadata_json (with_group background metadata_group) metadata_request
    ≡ some (
        set_header (text "Content-Type") (text "plain/text")
        ∷ map
            (λ l. write (l ++ (10 ∷ [])))
            (text "META=data"
              ∷ text "ETCD_NAME=node1"
              ∷ text "SOME_NESTED_DATA=some-value"
              ∷ text "REQUEST_QUERY_MAC=52:54:00:a1:9c:ae"
              ∷ text "REQUEST_QUERY_FOO=bar"
              ∷ text "REQUEST_QUERY_COUNT=3"
              ∷ text "REQUEST_QUERY_GATE=true"
              ∷ text "REQUEST_RAW_QUERY=mac=52-54-00-a1-9c-ae&foo=bar&count=3&gate=true"
              ∷ text "MAC=52:54:00:a1:9c:ae"
              ∷ []))
unfolding metadata_handler group_from_context with_group collect_variables render_as_env_file
    set_field set_selectors ◌==◌ text to_lower env_line request_variables to_upper env_strings
    labels_from_request collect_labels parse_mac Parse.get lookup parse_by_separator insert
    hex_digit hex_pair hex_value mac_string read_pairs
metadata_test = refl
