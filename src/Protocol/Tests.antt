-- ===== src/Protocol/Tests.antt =====
-- Runs of the frame code, and the theorems at concrete frames. The messages have a small length-prefixed
-- text in place of JSON.
use mathlib.Core.Option.{some-injective}
use mathlib.Core.Path.{subst}
use meshly_core.Common.{
  ◌≡◌, refl, ◌↔◌, Bool, true, false, Option, none, some, [], ◌∷◌, ◌++◌, nat_beq, if◌then◌else◌,
  eq_iff, nat_eq, list_eq, length, take, drop, replicate, take-append, drop-append, ok, err, panic,
  list_beq, index, slice, Bytes, Text, text, valid_utf8,
}
use meshly_core.Protocol.{
  short_header, short_payload, too_long, unknown_tag, data_open, Hello, SubscribeOk, DataOpen, tag,
  data_open_tag,
}
use meshly_core.Protocol.Json.{Codec, Json, RoundTrips, JsonRoundTrips}
use meshly_core.Protocol.Encode.{encode_payload, decode, decode_data_open}
use meshly_core.Protocol.Wire.{Writer, closed, broken, write_to, read_from, decode_from_bytes}
use meshly_core.Protocol.Stream.{after, read_from-write_to}
use meshly_core.Protocol.CutOpen.{decode-panic_iff}
use meshly_core.Protocol.Panics.{IsCutOpen}
use meshly_core.Protocol.Proof.{
  Crypto, ComparesExactly, compute_proof, verify_proof, verify_proof-compute_proof,
}

abbrev hello_codec : Codec Hello
hello_codec = record {
  to_vec = λ h. some (length h.group_token ∷ (h.group_token ++ h.client_info));
  from_slice = elim [
    | [] ↦ none
    | n ∷ r ↦ some (record { group_token = take n r; client_info = drop n r })
  ];
}

abbrev name_text : Option Text → Bytes
name_text none = []
name_text (some t) = 1 ∷ t

abbrev text_name : Bytes → Option Text
text_name [] = none
text_name (b ∷ t) = some t

abbrev subscribe_ok_codec : Codec SubscribeOk
subscribe_ok_codec = record {
  to_vec = λ s. some (
      (if s.relay_required then 1 else 0)
      ∷ length s.service
      ∷ (s.service ++ name_text s.provider_node_id));
  from_slice = elim [
    | [] ↦ none
    | b ∷ [] ↦ none
    | b ∷ n ∷ r ↦ some (record {
      service = take n r;
      provider_node_id = text_name (drop n r);
      relay_required = nat_beq b 1;
    })
  ];
}

abbrev sample_json : Json
sample_json = record {
  hello = hello_codec;
  hello_ok = record {
    to_vec = λ h. some (h.session_id ∷ []);
    from_slice = elim [ [] ↦ none | n ∷ r ↦ some (record { session_id = n }) ];
  };
  register = record {
    to_vec = λ r. some r.service;
    from_slice = λ bs. some (record { service = bs });
  };
  register_ok = record {
    to_vec = λ r. some r.service;
    from_slice = λ bs. some (record { service = bs });
  };
  subscribe = record {
    to_vec = λ r. some r.service;
    from_slice = λ bs. some (record { service = bs });
  };
  subscribe_ok = subscribe_ok_codec;
}

-- It is enough that the very bytes of `to_vec` read back.
same_bytes :
    {A : Type 0} (c : Codec A) (a : A) (x bs : Bytes)
    → some x ≡ some bs
    → c.from_slice x ≡ some a
    → c.from_slice bs ≡ some a
same_bytes c a x bs e h = subst (λ y. c.from_slice y ≡ some a) (some-injective x bs e) h

hello-RoundTrips : RoundTrips hello_codec
hello-RoundTrips h bs e =
    same_bytes hello_codec h _ bs e
      (rw (take-append h.group_token h.client_info, drop-append h.group_token h.client_info))

text_name-name_text : (o : Option Text) → text_name (name_text o) ≡ o
text_name-name_text none = refl
text_name-name_text (some t) = refl

flag-back : (b : Bool) → nat_beq (if b then 1 else 0) 1 ≡ b
flag-back true = refl
flag-back false = refl

subscribe_ok-RoundTrips : RoundTrips subscribe_ok_codec
subscribe_ok-RoundTrips s bs e =
    let rest = name_text s.provider_node_id in
    same_bytes subscribe_ok_codec s _ bs e (
      rw (
        take-append s.service rest,
        drop-append s.service rest,
        text_name-name_text s.provider_node_id,
        flag-back s.relay_required,
      ))

sample_laws : JsonRoundTrips sample_json
sample_laws = record {
  hello = hello-RoundTrips;
  hello_ok = λ a bs e. same_bytes sample_json.hello_ok a _ bs e refl;
  register = λ a bs e. same_bytes sample_json.register a _ bs e refl;
  register_ok = λ a bs e. same_bytes sample_json.register_ok a _ bs e refl;
  subscribe = λ a bs e. same_bytes sample_json.subscribe a _ bs e refl;
  subscribe_ok = subscribe_ok-RoundTrips;
}

abbrev ssh_open : DataOpen
ssh_open = record {
  target_service = text "ssh";
  target_provider = text "ab";
  consumer_node_id = text "cde";
  proof = replicate 32 3;
}

abbrev ssh_payload : Bytes
ssh_payload =
    3 ∷ 0 ∷ (text "ssh" ++ (2 ∷ 0 ∷ (text "ab" ++ (3 ∷ 0 ∷ (text "cde" ++ replicate 32 3)))))

abbrev empty_writer : Writer
empty_writer = record { sent = []; room = none }

ssh_written :
    write_to sample_json (data_open ssh_open) empty_writer
    ≡ ok (record { sent = data_open_tag ∷ 46 ∷ 0 ∷ ssh_payload; room = none })
unfolding write_to encode_payload tag
ssh_written = refl

-- A payload of 41 bytes, with the service "ssh" and a provider that claims 65535 bytes.
abbrev cut_payload : Bytes
cut_payload = 3 ∷ 0 ∷ (text "ssh" ++ (255 ∷ 255 ∷ replicate 34 0))

cut_panics : decode sample_json data_open_tag cut_payload ≡ panic
unfolding decode decode_data_open index slice valid_utf8
cut_panics = refl

short_reads :
    (read_from sample_json (after (2 ∷ 5 ∷ 0 ∷ 1 ∷ 2 ∷ 3 ∷ []) closed) ≡ err (short_payload 5 0))
    × (read_from sample_json (after [] closed) ≡ err short_header)
    × (read_from sample_json (after (1 ∷ 255 ∷ 255 ∷ []) broken) ≡ err (too_long 65535 32768))
    × (decode_from_bytes sample_json (0xee ∷ 0 ∷ 0 ∷ []) ≡ err (unknown_tag 0xee))
unfolding read_from index decode decode_from_bytes slice
short_reads = (refl, refl, refl, refl)

read_from-write_to_example :
    (bs : Bytes) × (data_open_tag ∷ 46 ∷ 0 ∷ ssh_payload ≡ bs)
    × (read_from sample_json (after (bs ++ (6 ∷ [])) closed)
        ≡ ok (data_open ssh_open, after (6 ∷ []) closed))
unfolding valid_utf8
read_from-write_to_example =
    read_from-write_to sample_json sample_laws (data_open ssh_open) empty_writer
      (record { sent = data_open_tag ∷ 46 ∷ 0 ∷ ssh_payload; room = none }) (6 ∷ []) closed
      (refl, refl, refl, refl) ssh_written

decode-panic_iff_example :
    (decode sample_json data_open_tag cut_payload ≡ panic)
    ↔ ((data_open_tag ≡ data_open_tag) × IsCutOpen cut_payload)
decode-panic_iff_example = decode-panic_iff sample_json data_open_tag cut_payload

abbrev plain_crypto : Crypto
plain_crypto = record { hmac = λ key message. key ++ message; ct_eq = list_beq }

plain_exact : ComparesExactly plain_crypto
plain_exact a b = eq_iff a b

own_proof :
    verify_proof plain_crypto
      (text "k")
      (text "ssh")
      (replicate 32 1)
      (compute_proof plain_crypto (text "k") (text "ssh") (replicate 32 1))
    ≡ true
own_proof =
    verify_proof-compute_proof plain_crypto plain_exact (text "k") (replicate 32 1) (text "ssh")
