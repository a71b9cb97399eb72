-- ===== src/Rpc/Tests.antt =====
-- The theorems on the messages of src/rpc.rs, applied with a toy encoding of items: a tag, a length
-- and the elements.
use discv.Rpc.Codec.{address_of_octets}
use discv.Rpc.Codec.{decode, encode}
use discv.Prelude.{
  refl, ℕ, List, [], ◌∷◌, ◌++◌, zero, suc, Option, some, none, length, if◌then◌else◌, ◌⊎◌, Bool,
  ◌≡◌, arith, ◌==◌, inl, inr, sym, ◌∙◌, ap, ◌≤◌, take, ◌-◌, length-append, get_elem?, All, ◌<◌,
}
use mathlib.Core.List.{append_assoc, append-nil}
use discv.Packet.Bytes.{drop, drop-append, take-append, bytes_eq}
use discv.Packet.Outcome.{ok, err}
use discv.Rpc.Rlp.{
  Rlp, RlpLaws, Item, bytes, number, numbers, enrs, written, append_items, append_item, append_enrs,
}
use discv.Rpc.Message.{Message, v4, v6, find_node, pong, request, response, is_loopback, to_ipv4}
use discv.Rpc.Roundtrip.{normal, decode-encode_find_node}

abbrev flat : Item ℕ → List ℕ
flat (bytes b) = 0 ∷ length b ∷ b
flat (number n) = 1 ∷ n ∷ []
flat (numbers ns) = 2 ∷ length ns ∷ ns
flat (enrs rs) = 3 ∷ length rs ∷ rs

abbrev flats : List (Item ℕ) → List ℕ
flats [] = []
flats (x ∷ xs) = flat x ++ flats xs

unfoldable parse : ℕ → List ℕ → List (Item ℕ)
parse zero ts = []
parse (suc n) [] = []
parse (suc n) (t ∷ []) = []
parse (suc n) (t ∷ l ∷ ts) =
    if t == 0
    then bytes (take l ts) ∷ parse n (drop l ts)
    else if t == 1
    then number l ∷ parse n ts
    else if t == 2
    then numbers (take l ts) ∷ parse n (drop l ts)
    else enrs (take l ts) ∷ parse n (drop l ts)

parse-flats : (xs : List (Item ℕ)) → parse (length xs) (flats xs) ≡ xs
unfolding parse
parse-flats [] = refl
parse-flats (bytes b ∷ xs) =
    rw (take-append b (flats xs), drop-append b (flats xs), parse-flats xs) refl
parse-flats (number n ∷ xs) = rw (parse-flats xs) refl
parse-flats (numbers ns ∷ xs) =
    rw (take-append ns (flats xs), drop-append ns (flats xs), parse-flats xs) refl
parse-flats (enrs rs ∷ xs) =
    rw (take-append rs (flats xs), drop-append rs (flats xs), parse-flats xs) refl

-- The items of a list, and the item at a place.
abbrev items_of : List ℕ → List (Item ℕ)
items_of [] = []
items_of (t ∷ []) = []
items_of (t ∷ n ∷ ts) = parse n ts

abbrev counted : List ℕ → Unit {0} ⊎ ℕ
counted [] = inl tt
counted (t ∷ []) = inl tt
counted (t ∷ n ∷ ts) = inr n

abbrev as_bytes : Option (Item ℕ) → Unit {0} ⊎ List ℕ
as_bytes none = inl tt
as_bytes (some (bytes b)) = inr b
as_bytes (some (number n)) = inl tt
as_bytes (some (numbers ns)) = inl tt
as_bytes (some (enrs rs)) = inl tt

abbrev as_number : Option (Item ℕ) → Unit {0} ⊎ ℕ
as_number none = inl tt
as_number (some (bytes b)) = inl tt
as_number (some (number n)) = inr n
as_number (some (numbers ns)) = inl tt
as_number (some (enrs rs)) = inl tt

abbrev as_numbers : Option (Item ℕ) → Unit {0} ⊎ List ℕ
as_numbers none = inl tt
as_numbers (some (bytes b)) = inl tt
as_numbers (some (number n)) = inl tt
as_numbers (some (numbers ns)) = inr ns
as_numbers (some (enrs rs)) = inl tt

-- A list inside, at its place: the tokens of it.
abbrev inside : Option (Item ℕ) → Unit {0} ⊎ List ℕ
inside none = inl tt
inside (some (bytes b)) = inl tt
inside (some (number n)) = inl tt
inside (some (numbers ns)) = inl tt
inside (some (enrs rs)) = inr rs

abbrev empty : List ℕ → Bool
empty rs = length rs == 0

instance abbrev toy : Rlp
toy = record {
  Enr = ℕ;
  Stream = List ℕ;
  View = List ℕ;
  DecoderError = Unit {0};
  rlp_is_too_short = tt;
  rlp_incorrect_list_len = tt;
  rlp_inconsistent_length_and_data = tt;
  custom = λ e. tt;
  new = [];
  begin_list = λ n s. s ++ 3 ∷ n ∷ [];
  append_bytes = λ b s. s ++ 0 ∷ length b ∷ b;
  append_number = λ n s. s ++ 1 ∷ n ∷ [];
  append_numbers = λ ns s. s ++ 2 ∷ length ns ∷ ns;
  append_enr = λ r s. s ++ r ∷ [];
  out = λ s. s;
  view = λ b. b;
  item_count = counted;
  payload_info = λ b. inr (2, length b - 2);
  at = λ v i. inside (get_elem? (items_of v) i);
  is_empty = empty;
  bytes_at = λ v i. as_bytes (get_elem? (items_of v) i);
  u64_at = λ v i. as_number (get_elem? (items_of v) i);
  u16_at = λ v i. as_number (get_elem? (items_of v) i);
  u64s_at = λ v i. as_numbers (get_elem? (items_of v) i);
  as_enrs = λ rs. inr rs;
}

append_enrs_lem : (rs s : List ℕ) → append_enrs rs s ≡ s ++ rs
append_enrs_lem [] s = sym (append-nil s)
append_enrs_lem (r ∷ rs) s = append_enrs_lem rs (s ++ r ∷ []) ∙ append_assoc s (r ∷ []) rs

append_item_lem : (x : Item ℕ) (s : List ℕ) → append_item x s ≡ s ++ flat x
append_item_lem (bytes b) s = refl
append_item_lem (number n) s = refl
append_item_lem (numbers ns) s = refl
append_item_lem (enrs rs) s =
    append_enrs_lem rs (s ++ 3 ∷ length rs ∷ []) ∙ append_assoc s (3 ∷ length rs ∷ []) rs

append_items_lem : (xs : List (Item ℕ)) (s : List ℕ) → append_items xs s ≡ s ++ flats xs
append_items_lem [] s = sym (append-nil s)
append_items_lem (x ∷ xs) s =
    append_items_lem xs (append_item x s)
    ∙ ap (λ (t : List ℕ). t ++ flats xs) (append_item_lem x s)
    ∙ append_assoc s (flat x) (flats xs)

written_lem : (xs : List (Item ℕ)) → written xs ≡ 3 ∷ length xs ∷ flats xs
written_lem xs = append_items_lem xs (3 ∷ length xs ∷ [])

items-written : (xs : List (Item ℕ)) → items_of (written xs) ≡ xs
items-written xs = ap items_of (written_lem xs) ∙ parse-flats xs

length-flats : (xs : List (Item ℕ)) → length xs ≤ length (flats xs)
length-flats [] = omega arith
length-flats (bytes b ∷ xs) = omega (arith, length-append b (flats xs), length-flats xs)
length-flats (number n ∷ xs) = omega (arith, length-flats xs)
length-flats (numbers b ∷ xs) = omega (arith, length-append b (flats xs), length-flats xs)
length-flats (enrs b ∷ xs) = omega (arith, length-append b (flats xs), length-flats xs)

length-written_lem : (xs : List (Item ℕ)) → length (written xs) ≡ suc (suc (length (flats xs)))
length-written_lem xs = ap length (written_lem xs)

instance abbrev toy_laws : RlpLaws
toy_laws = record {
  length-written = λ xs. omega (arith, length-written_lem xs, length-flats xs);
  item_count-written = λ xs. ap counted (written_lem xs);
  payload_info-written =
      λ xs. (2, length (written xs) - 2, refl, omega (arith, length-written_lem xs));
  bytes_at-written = λ xs i b e. rw (items-written xs, e) refl;
  u64_at-written = λ xs i n e h. rw (items-written xs, e) refl;
  u16_at-written = λ xs i n e h. rw (items-written xs, e) refl;
  u64s_at-written = λ xs i ns e h. rw (items-written xs, e) refl;
  at-written = λ xs i rs e. (rs, rw (items-written xs, e) refl, refl, refl);
}

-- A PONG with an IPv6 address that holds 192.0.2.1.
abbrev mapped : Message ℕ
mapped = response (record {
  id = 1 ∷ [];
  body =
      pong 5 (v6 (0 ∷ 0 ∷ 0 ∷ 0 ∷ 0 ∷ 0 ∷ 0 ∷ 0 ∷ 0 ∷ 0 ∷ 255 ∷ 255 ∷ 192 ∷ 0 ∷ 2 ∷ 1 ∷ [])) 9000;
})

-- What it is read as.
mapped_is_v4 :
    normal mapped
    ≡ response (record { id = 1 ∷ []; body = pong 5 (v4 (192 ∷ 0 ∷ 2 ∷ 1 ∷ [])) 9000 })
unfolding address_of_octets is_loopback to_ipv4 bytes_eq
mapped_is_v4 = refl

-- The second distance is too far.
decode-encode_find_node_example :
    let sent = request (record { id = 1 ∷ []; body = find_node (256 ∷ 257 ∷ []) }) in
    (All (λ (d : ℕ). d ≤ 256) (256 ∷ 257 ∷ []) × (decode (encode sent) ≡ ok sent))
    ⊎ ((i : ℕ) × (d : ℕ) × (get_elem? (256 ∷ 257 ∷ []) i ≡ some d)
        × (256 < d)
        × (decode (encode sent) ≡ err tt))
decode-encode_find_node_example =
    decode-encode_find_node (1 ∷ []) (256 ∷ 257 ∷ []) (omega arith) (omega arith, (omega arith, tt))
