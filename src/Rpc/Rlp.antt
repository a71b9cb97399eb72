-- ===== src/Rpc/Rlp.antt =====
-- The crate `rlp`, as src/rpc.rs uses it: `RlpStream` writes a list of items, and `Rlp` reads the
-- items of such a list back. `Enr` is the crate `enr`'s record, which knows its own encoding.
use discv.Prelude.{
  ℕ, List, [], ◌∷◌, ◌≡◌, ◌⊎◌, inr, ◌+◌, ◌<◌, ◌^◌, length, get_elem?, some, Bool, All, ◌==◌,
}

-- The messages of `DecoderError::Custom`.
pub data CustomError : Type 0 where
  invalid_id_length port_number_invalid distance_invalid unknown_message_type : CustomError

-- `RlpStream`, with `append` at the types that are used, and `Rlp`.
pub record Rlp : Type 1 where
  pub Enr : Type 0
  pub Stream : Type 0
  pub View : Type 0
  pub DecoderError : Type 0
  pub rlp_is_too_short : DecoderError
  pub rlp_incorrect_list_len : DecoderError
  pub rlp_inconsistent_length_and_data : DecoderError
  pub custom : CustomError → DecoderError
  pub new : Stream
  pub begin_list : ℕ → Stream → Stream
  pub append_bytes : List ℕ → Stream → Stream
  pub append_number : ℕ → Stream → Stream
  pub append_numbers : List ℕ → Stream → Stream
  pub append_enr : Enr → Stream → Stream
  pub out : Stream → List ℕ
  pub view : List ℕ → View
  pub item_count : View → DecoderError ⊎ ℕ
  -- the lengths of the header and of the value
  pub payload_info : View → DecoderError ⊎ (ℕ × ℕ)
  pub at : View → ℕ → DecoderError ⊎ View
  pub is_empty : View → Bool
  pub bytes_at : View → ℕ → DecoderError ⊎ List ℕ
  -- `val_at` of a `u64` and of a `u16`
  pub u64_at : View → ℕ → DecoderError ⊎ ℕ
  pub u16_at : View → ℕ → DecoderError ⊎ ℕ
  pub u64s_at : View → ℕ → DecoderError ⊎ List ℕ
  pub as_enrs : View → DecoderError ⊎ List Enr

-- An item that is written to a stream.
pub data Item (Enr : Type 0) : Type 0 where
  bytes : List ℕ → Item Enr
  number : ℕ → Item Enr
  numbers : List ℕ → Item Enr
  enrs : List Enr → Item Enr

module _ ⦃rlp : Rlp⦄ where
  abbrev pub append_enrs : List rlp.Enr → rlp.Stream → rlp.Stream
  append_enrs [] s = s
  append_enrs (r ∷ rs) s = append_enrs rs (rlp.append_enr r s)

  abbrev pub append_item : Item rlp.Enr → rlp.Stream → rlp.Stream
  append_item (bytes b) s = rlp.append_bytes b s
  append_item (number n) s = rlp.append_number n s
  append_item (numbers ns) s = rlp.append_numbers ns s
  append_item (enrs rs) s = append_enrs rs (rlp.begin_list (length rs) s)

  abbrev pub append_items : List (Item rlp.Enr) → rlp.Stream → rlp.Stream
  append_items [] s = s
  append_items (x ∷ xs) s = append_items xs (append_item x s)

  -- The bytes of a list of items.
  abbrev pub written : List (Item rlp.Enr) → List ℕ
  written xs = rlp.out (append_items xs (rlp.begin_list (length xs) rlp.new))

-- What `Rlp` reads of a list that `RlpStream` wrote: every item at its place, at the type it was
-- written at, a number if it fits that type. Each item takes a byte at least, and so does the
-- header.
pub record RlpLaws ⦃rlp : Rlp⦄ : Type 0 where
  pub length-written : (xs : List (Item rlp.Enr)) → length xs < length (written xs)
  pub item_count-written :
      (xs : List (Item rlp.Enr)) → rlp.item_count (rlp.view (written xs)) ≡ inr (length xs)
  pub payload_info-written :
      (xs : List (Item rlp.Enr))
      → (h : ℕ) × (v : ℕ) × (rlp.payload_info (rlp.view (written xs)) ≡ inr (h, v))
        × (h + v ≡ length (written xs))
  pub bytes_at-written :
      (xs : List (Item rlp.Enr)) (i : ℕ) (b : List ℕ)
      → get_elem? xs i ≡ some (bytes b)
      → rlp.bytes_at (rlp.view (written xs)) i ≡ inr b
  pub u64_at-written :
      (xs : List (Item rlp.Enr)) (i n : ℕ)
      → get_elem? xs i ≡ some (number n)
      → n < 2 ^ 64
      → rlp.u64_at (rlp.view (written xs)) i ≡ inr n
  pub u16_at-written :
      (xs : List (Item rlp.Enr)) (i n : ℕ)
      → get_elem? xs i ≡ some (number n)
      → n < 2 ^ 16
      → rlp.u16_at (rlp.view (written xs)) i ≡ inr n
  pub u64s_at-written :
      (xs : List (Item rlp.Enr)) (i : ℕ) (ns : List ℕ)
      → get_elem? xs i ≡ some (numbers ns)
      → All (λ (n : ℕ). n < 2 ^ 64) ns
      → rlp.u64s_at (rlp.view (written xs)) i ≡ inr ns
  pub at-written :
      (xs : List (Item rlp.Enr)) (i : ℕ) (rs : List rlp.Enr)
      → get_elem? xs i ≡ some (enrs rs)
      → (v : rlp.View) × (rlp.at (rlp.view (written xs)) i ≡ inr v)
        × (rlp.is_empty v ≡ (length rs == 0))
        × (rlp.as_enrs v ≡ inr rs)
