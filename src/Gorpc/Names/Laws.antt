-- ===== src/Gorpc/Names/Laws.antt =====
-- Exactly the fields v0, v1, … of the transaction envelopes are hidden.
use goxdr.Prelude.{
  le→leb, ℕ, ◌-◌, ◌≤◌, ◌<◌, ◌↔◌, true, [], ◌∷◌, ◌++◌, length, take, drop, ◌==◌, if◌then◌else◌,
  Bytes, bytes_eq_iff, codes, All, length-append, take-append-drop, take-length_append,
  drop-length_append, ◌≡◌, ◌≢◌, refl, sym, ap, ◌∙◌, subst, arith,
}
use goxdr.Gorpc.Names.{
  all_digits, starts_v, v_field, has_prefix, has_suffix, digits_then, is_digit_sandwich, last_part,
  hide_field_name,
}

abbrev pub Digits : Bytes → Type 0
Digits s = All (λ c. (b'0' ≤ c) × (c ≤ b'9')) s

all_digits_iff : (s : Bytes) → (all_digits s ≡ true) ↔ Digits s
unfolding all_digits
all_digits_iff [] = (λ h. tt, λ h. refl)
all_digits_iff (c ∷ s) = ground (arith, all_digits_iff s)

v_field_iff :
    (s : Bytes) → (v_field s ≡ true) ↔ ((c : ℕ) × (t : Bytes) × (s ≡ b'v' ∷ c ∷ t) × Digits (c ∷ t))
unfolding v_field starts_v
v_field_iff [] = (λ h. absurd (cc), λ h. absurd (cc))
v_field_iff (v ∷ []) = (λ h. absurd (cc), λ (c, t, e, d). absurd (cc))
v_field_iff (v ∷ c ∷ t) = (forth, back)
  where
    forth :
        v_field (v ∷ c ∷ t) ≡ true
        → (d : ℕ) × (u : Bytes) × (v ∷ c ∷ t ≡ b'v' ∷ d ∷ u) × Digits (d ∷ u)
    forth h = (c, t, ground arith, (all_digits_iff (c ∷ t)).0 (ground arith))

    back :
        (d : ℕ) × (u : Bytes) × (v ∷ c ∷ t ≡ b'v' ∷ d ∷ u) × Digits (d ∷ u)
        → v_field (v ∷ c ∷ t) ≡ true
    back (d, u, e, h) =
        subst (λ x. v_field x ≡ true) (sym e) (ground (arith, (all_digits_iff (d ∷ u)).1 h))

has_prefix_iff : (s p : Bytes) → (has_prefix s p ≡ true) ↔ ((r : Bytes) × (s ≡ p ++ r))
unfolding has_prefix
has_prefix_iff s p = (forth, back)
  where
    forth : has_prefix s p ≡ true → (r : Bytes) × (s ≡ p ++ r)
    forth h =
        let same : take (length p) s ≡ p = (bytes_eq_iff (take (length p) s) p).0 (ground arith) in
        (
          drop (length p) s,
          sym (take-append-drop (length p) s) ∙ ap (λ t. t ++ drop (length p) s) same,
        )

    back : (r : Bytes) × (s ≡ p ++ r) → has_prefix s p ≡ true
    back (r, e) =
        rw
          (
            e,
            take-length_append p r,
            (bytes_eq_iff p p).1 refl,
            le→leb (length p) (length (p ++ r)) (omega (arith, length-append p r)),
          )
          refl

-- What stands before a suffix.
cut : (r p : Bytes) → (length (r ++ p) - length p) ≡ length r
cut r p = omega (arith, length-append r p)

has_suffix_iff : (s p : Bytes) → (has_suffix s p ≡ true) ↔ ((r : Bytes) × (s ≡ r ++ p))
unfolding has_suffix
has_suffix_iff s p = (forth, back)
  where
    forth : has_suffix s p ≡ true → (r : Bytes) × (s ≡ r ++ p)
    forth h =
        let same : drop (length s - length p) s ≡ p =
          (bytes_eq_iff (drop (length s - length p) s) p).0 (ground arith) in
        (
          take (length s - length p) s,
          sym (take-append-drop (length s - length p) s)
              ∙ ap (◌++◌ (take (length s - length p) s)) same,
        )

    back : (r : Bytes) × (s ≡ r ++ p) → has_suffix s p ≡ true
    back (r, e) =
        rw
          (
            e,
            cut r p,
            drop-length_append r p,
            (bytes_eq_iff p p).1 refl,
            le→leb (length p) (length (r ++ p)) (omega (arith, length-append r p)),
          )
          refl

front : (t d q : Bytes) → t ≡ d ++ q → take (length t - length q) t ≡ d
front t d q e = rw (e, cut d q) (take-length_append d q)

digits_then_iff :
    (t q : Bytes)
    → (digits_then t q ≡ true) ↔ ((d : Bytes) × (0 < length d) × Digits d × (t ≡ d ++ q))
unfolding digits_then
digits_then_iff t q = (forth, back)
  where
    forth : digits_then t q ≡ true → (d : Bytes) × (0 < length d) × Digits d × (t ≡ d ++ q)
    forth h =
        let (d, e) = (has_suffix_iff t q).0 (ground arith) in
        let long : length q < length t = ground arith in
        (
          d,
          omega (arith, length-append d q, ap (λ (x : Bytes). length x) e),
          (all_digits_iff d).0 (subst (λ x. all_digits x ≡ true) (front t d q e) (ground arith)),
          e,
        )

    back : (d : Bytes) × (0 < length d) × Digits d × (t ≡ d ++ q) → digits_then t q ≡ true
    back (d, pos, h, e) =
        rw
          (
            e,
            (has_suffix_iff (d ++ q) q).1 (d, refl),
            cut d q,
            take-length_append d q,
            (all_digits_iff d).1 h,
          )
          (ground (arith, length-append d q))

-- A text with a prefix, the digits behind it and a suffix.
sandwich_iff :
    (s p q : Bytes)
    → (is_digit_sandwich s p q ≡ true)
      ↔ ((d : Bytes) × (0 < length d) × Digits d × (s ≡ p ++ (d ++ q)))
unfolding is_digit_sandwich
sandwich_iff s p q = (forth, back)
  where
    forth :
        is_digit_sandwich s p q ≡ true
        → (d : Bytes) × (0 < length d) × Digits d × (s ≡ p ++ (d ++ q))
    forth h =
        let (r, e) = (has_prefix_iff s p).0 (ground arith) in
        let (d, pos, dig, e') = (digits_then_iff (drop (length p) s) q).0 (ground arith) in
        (d, pos, dig, e ∙ ap (◌++◌ p) (sym (ap (drop (length p)) e ∙ drop-length_append p r) ∙ e'))

    back :
        (d : Bytes) × (0 < length d) × Digits d × (s ≡ p ++ (d ++ q))
        → is_digit_sandwich s p q ≡ true
    back (d, pos, h, e) =
        rw
          (
            e,
            (has_prefix_iff (p ++ (d ++ q)) p).1 (d ++ q, refl),
            drop-length_append p (d ++ q),
            (digits_then_iff (d ++ q) q).1 (d, pos, h, refl),
          )
          refl

-- HideFieldName hides a field exactly if the part behind the last '.' of its name is a v and one or more
-- digits, and its type's name is TransactionV, one or more digits, and Envelope.
hide_field_name_iff :
    (field type_name : Bytes)
    → (hide_field_name field type_name ≡ true) ↔ (
        ((c : ℕ) × (t : Bytes) × (last_part field field ≡ b'v' ∷ c ∷ t) × Digits (c ∷ t))
        × ((d : Bytes) × (0 < length d)
            × Digits d
            × (type_name ≡ codes "TransactionV" ++ (d ++ codes "Envelope"))))
unfolding hide_field_name
hide_field_name_iff field type_name = (forth, back)
  where
    forth :
        hide_field_name field type_name ≡ true
        → ((c : ℕ) × (t : Bytes) × (last_part field field ≡ b'v' ∷ c ∷ t) × Digits (c ∷ t))
          × ((d : Bytes) × (0 < length d)
              × Digits d
              × (type_name ≡ codes "TransactionV" ++ (d ++ codes "Envelope")))
    forth h = (
      (v_field_iff (last_part field field)).0 (ground arith),
      (sandwich_iff type_name (codes "TransactionV") (codes "Envelope")).0 (ground arith),
    )

    back :
        ((c : ℕ) × (t : Bytes) × (last_part field field ≡ b'v' ∷ c ∷ t) × Digits (c ∷ t))
          × ((d : Bytes) × (0 < length d)
              × Digits d
              × (type_name ≡ codes "TransactionV" ++ (d ++ codes "Envelope")))
        → hide_field_name field type_name ≡ true
    back (f, t) =
        rw
          (
            (v_field_iff (last_part field field)).1 f,
            (sandwich_iff type_name (codes "TransactionV") (codes "Envelope")).1 t,
          )
          refl

pub last_part_plain : (f s : Bytes) → All (λ c. c ≢ b'.') s → last_part f s ≡ f
unfolding last_part
last_part_plain f [] h = refl
last_part_plain f (c ∷ s) h = ground (arith, last_part_plain f s h.1, h.0)

-- Behind the last '.' there is no other, and before it stands the rest of the name.
last_part_dot :
    (a s : Bytes) → All (λ c. c ≢ b'.') s → (f : Bytes) → last_part f (a ++ b'.' ∷ s) ≡ s
unfolding last_part
last_part_dot [] s h f = last_part_plain s s h
last_part_dot (c ∷ a) s h f = last_part_dot a s h (if c == b'.' then a ++ b'.' ∷ s else f)
