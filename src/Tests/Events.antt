-- ===== src/Tests/Events.antt =====
-- An event as JSON, and its packed form.
use strfry_http.Base.{
  ◌+◌, ◌≡◌, ◌≤◌, ◌↔◌, refl, [], ◌∷◌, ◌++◌, Bytes, ok, replicate, codes, false, ◌&&◌, leb, ltb,
  if◌then◌else◌, arith, bytes_eq,
}
use strfry_http.Base.Json.{Json, object, array, unsigned, string, member, done, cons, nil}
use strfry_http.Packed.{add, packed_event_builder}
use strfry_http.Event.Json.{
  Settings, nostr_json_to_packed_event, json_get_string, json_get_unsigned, json_get_array,
  name_and_value, add_tags, add_named, add_fixed_size, add_expiration, add_single_letter,
  add_virtual, parse_uint64, decimal_value, is_replaceable_kind, is_param_replaceable_kind,
  is_ephemeral_kind,
}
use strfry_http.Event.Json.Whole.{IsPacked, nostr_json_to_packed_event-IsPacked}
use strfry_http.Event.Times.{Window, verify_times, max_age, verify_times_iff}
use strfry_http.Tests.Instances.{native_encoding, from_hex}

program : Unit {0}
unfolding nostr_json_to_packed_event json_get_string json_get_unsigned json_get_array name_and_value
    add_tags add_named add_fixed_size add_expiration add_single_letter add_virtual parse_uint64
    decimal_value is_replaceable_kind is_param_replaceable_kind is_ephemeral_kind add
    packed_event_builder bytes_eq from_hex native_encoding
program = tt

abbrev settings : Settings
settings = record { max_num_tags = 2000; max_tag_val_size = 1024; from_hex = from_hex }

abbrev text : Bytes → Json
text s = string s

abbrev tags_json : Json
tags_json = array (
    cons (array (cons (text (codes "t")) (cons (text (codes "x")) nil)))
      (cons (array (cons (text (codes "expiration")) (cons (text (codes "1800000000")) nil))) nil))

abbrev event_json : Json
event_json = object (
    member (codes "id") (text (replicate 64 b'0')) (
      member (codes "pubkey") (text (replicate 64 b'1')) (
        member (codes "created_at") (unsigned 1700000000) (
          member (codes "kind") (unsigned 3)
            (member (codes "content") (text []) (member (codes "tags") tags_json done))))))

abbrev packed : Bytes
packed =
    replicate 32 0
    ++ (replicate 32 17
        ++ (native_encoding.to_sv 1700000000
            ++ (native_encoding.to_sv 3
                ++ (native_encoding.to_sv 1800000000 ++ (b'd' ∷ 0 ∷ b't' ∷ 1 ∷ b'x' ∷ [])))))

packs : nostr_json_to_packed_event settings native_encoding event_json ≡ ok packed
unfolding program
packs = refl

nostr_json_to_packed_event-IsPacked_example : IsPacked settings native_encoding event_json packed
nostr_json_to_packed_event-IsPacked_example =
    nostr_json_to_packed_event-IsPacked settings native_encoding event_json packed packs

abbrev window : Window
window = record {
  reject_ephemeral_events_older_than_seconds = 60;
  reject_events_older_than_seconds = 94608000;
  reject_events_newer_than_seconds = 900;
}

verify_times_iff_example : (verify_times window 1700000500 1700000000 1800000000 ≡ ok tt) ↔ (
    (1700000500 ≤ 1700000000 + max_age window 1800000000)
    × (1700000000 ≤ (
        if ltb (1700000500 + 900) 18446744073709551616
        then 1700000500 + 900
        else 18446744073709551614))
    × ((ltb 1 1800000000 && leb 1800000000 1700000500) ≡ false))
verify_times_iff_example =
    verify_times_iff window 1700000500 1700000000 1800000000 (omega arith) (omega arith)
      (omega arith)
