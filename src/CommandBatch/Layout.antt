-- ===== src/CommandBatch/Layout.antt =====
-- Records laid out in a buffer one behind the other, and what keeps them.
use bionic_vulkan_bridge.Prelude.{
  ℕ, ◌+◌, ◌-◌, ◌^◌, ◌≤◌, ◌<◌, ◌≡◌, ◌⊎◌, inl, List, [], ◌∷◌, ◌++◌, arith, refl, sym, ap, ◌∙◌,
}
use bionic_vulkan_bridge.Wire.{Buffer, put_u16, put_u32, get_u16, get_u32, copied, from}
use bionic_vulkan_bridge.Wire.RoundTrip.{
  get_u16-put_u16, get_u32-put_u32, put_u16-outside, put_u32-outside,
}
use bionic_vulkan_bridge.Wire.Canonical.{AgreeTo}
use bionic_vulkan_bridge.CommandBatch.{CommandRecord, put_record, record_header_size}

-- The same bytes from an offset up to another.
abbrev pub AgreeOn : ℕ → ℕ → Buffer → Buffer → Type 0
AgreeOn o e a b = (i : ℕ) → o ≤ i → i < e → a i ≡ b i

pub get_u16-agree : (a b : Buffer) (o : ℕ) → AgreeOn o (o + 2) a b → get_u16 a o ≡ get_u16 b o
unfolding get_u16
get_u16-agree a b o h =
    rw (h o (omega arith) (omega arith), h (o + 1) (omega arith) (omega arith)) refl

pub get_u32-agree : (a b : Buffer) (o : ℕ) → AgreeOn o (o + 4) a b → get_u32 a o ≡ get_u32 b o
unfolding get_u32
get_u32-agree a b o h =
    rw
      (
        h o (omega arith) (omega arith),
        h (o + 1) (omega arith) (omega arith),
        h (o + 2) (omega arith) (omega arith),
        h (o + 3) (omega arith) (omega arith),
      )
      refl

-- The record stands at the offset.
pub record IsAt (b : Buffer) (o : ℕ) (r : CommandRecord) : Type 0 where
  pub opcode_lem : get_u16 b o ≡ r.opcode
  pub flags_lem : get_u16 b (o + 2) ≡ 0
  pub length_lem : get_u32 b (o + 4) ≡ r.payload_length
  pub payload_lem : AgreeTo r.payload_length (from b (o + 8)) r.payload

abbrev pub behind : ℕ → CommandRecord → ℕ
behind o r = o + (record_header_size + r.payload_length)

-- The records stand one behind the other, from the first offset to the last.
abbrev pub AreAt : Buffer → ℕ → List CommandRecord → ℕ → Type 0
AreAt b o [] e = o ≡ e
AreAt b o (r ∷ rs) e = IsAt b o r × AreAt b (behind o r) rs e

pub AreAt-order : (b : Buffer) (o e : ℕ) (rs : List CommandRecord) → AreAt b o rs e → o ≤ e
AreAt-order b o e [] h = omega (arith, h)
AreAt-order b o e (r ∷ rs) (_, h) = omega (arith, AreAt-order b (behind o r) e rs h)

pub IsAt-agree :
    (a b : Buffer) (o : ℕ) (r : CommandRecord)
    → AgreeOn o (behind o r) a b
    → IsAt a o r
    → IsAt b o r
IsAt-agree a b o r h at = record {
  opcode_lem = sym (get_u16-agree a b o (λ i l u. h i l (omega (arith, u)))) ∙ at.opcode_lem;
  flags_lem =
      sym (get_u16-agree a b (o + 2) (λ i l u. h i (omega (arith, l)) (omega (arith, u))))
      ∙ at.flags_lem;
  length_lem =
      sym (get_u32-agree a b (o + 4) (λ i l u. h i (omega (arith, l)) (omega (arith, u))))
      ∙ at.length_lem;
  payload_lem = λ i l. sym (h (o + 8 + i) (omega arith) (omega (arith, l))) ∙ at.payload_lem i l;
}

pub AreAt-agree :
    (a b : Buffer) (o e : ℕ) (rs : List CommandRecord)
    → AgreeOn o e a b
    → AreAt a o rs e
    → AreAt b o rs e
AreAt-agree a b o e [] h at = at
AreAt-agree a b o e (r ∷ rs) h (first, rest) =
    let order = AreAt-order a (behind o r) e rs rest in
    (
      IsAt-agree a b o r (λ i l u. h i l (omega (arith, u, order))) first,
      AreAt-agree a b (behind o r) e rs (λ i l u. h i (omega (arith, l)) u) rest,
    )

pub AreAt-append :
    (b : Buffer) (o m e : ℕ) (rs ss : List CommandRecord)
    → AreAt b o rs m
    → AreAt b m ss e
    → AreAt b o (rs ++ ss) e
AreAt-append b o m e [] ss h k = rw h k
AreAt-append b o m e (r ∷ rs) ss (first, rest) k =
    (first, AreAt-append b (behind o r) m e rs ss rest k)

-- What the stores of a record leave alone.
pub put_record-outside :
    (b : Buffer) (o i : ℕ) (r : CommandRecord)
    → (i < o) ⊎ (behind o r ≤ i)
    → put_record b o r i ≡ b i
unfolding put_record put_u16 put_u32
put_record-outside b o i r h = ground (arith, h)

copied_lem :
    (b : Buffer) (o : ℕ) (p : Buffer) (n i : ℕ)
    → i < n
    → copied b (o + record_header_size) p n (o + 8 + i) ≡ p i
copied_lem b o p n i l =
    let here : o + 8 + i - (o + 8) ≡ i = omega arith in ground (arith, l, ap p here)

-- The stores of a record put it at the offset.
pub put_record-IsAt :
    (b : Buffer) (o : ℕ) (r : CommandRecord)
    → r.opcode < 2 ^ 16
    → r.payload_length < 2 ^ 32
    → IsAt (put_record b o r) o r
unfolding put_record
put_record-IsAt b o r p q =
    let b1 = put_u16 b o r.opcode in
    let b2 = put_u16 b1 (o + 2) 0 in
    let b3 = put_u32 b2 (o + 4) r.payload_length in
    let b4 = copied b3 (o + record_header_size) r.payload r.payload_length in
    record {
      opcode_lem =
          get_u16-agree b4 b1 o (λ i l u. ground (
            arith,
            l,
            u,
            put_u32-outside b2 (o + 4) r.payload_length i (inl (omega (arith, u))),
            put_u16-outside b1 (o + 2) 0 i (inl (omega (arith, u))),
          ))
          ∙ get_u16-put_u16 b o r.opcode p;
      flags_lem =
          get_u16-agree b4 b2 (o + 2) (λ i l u.
            ground
              (arith, l, u, put_u32-outside b2 (o + 4) r.payload_length i (inl (omega (arith, u)))))
          ∙ get_u16-put_u16 b1 (o + 2) 0 (omega arith);
      length_lem =
          get_u32-agree b4 b3 (o + 4) (λ i l u. ground (arith, l, u))
          ∙ get_u32-put_u32 b2 (o + 4) r.payload_length q;
      payload_lem = λ i l. copied_lem b3 o r.payload r.payload_length i l;
    }
