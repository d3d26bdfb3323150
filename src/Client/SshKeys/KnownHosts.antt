-- ===== src/Client/SshKeys/KnownHosts.antt =====
-- What `write_known_hosts` leaves in the file.
use cawl.Client.SshKeys.{
  ca_line, is_marked, host_pattern, write_known_hosts, lines_of, concat, is_break, marker,
}
use cawl.Incus.Commands.{includes}
use cawl.Naming.Labels.{starts_with, strip}
use cawl.Prelude.{
  Text, ℕ, ◌++◌, Bool, ◌∷◌, ◌≡◌, List, true, arith, select, [], not, refl, codes, contains, length,
  ◌≤◌, Bool-cases, ◌==◌, inl, inr, sym, ap, eq_iff, append-nil, ◌∙◌, ap₂, All, append_assoc,
  All-select, any, false, if◌then◌else◌,
}
use cawl.Params.Patterns.{is_space}

starts_with-append : (s t : Text) → starts_with s (s ++ t) ≡ true
starts_with-append [] t = refl
starts_with-append (c ∷ s) t = ground (arith, starts_with-append s t)

includes-append : (c : ℕ) (s t : Text) → includes (c ∷ s) ((c ∷ s) ++ t) ≡ true
includes-append c s t = ground (arith, starts_with-append (c ∷ s) t)

ca_line-is_marked :
    (pattern ca_pubkey : Text) → is_marked pattern (ca_line pattern ca_pubkey) ≡ true
unfolding ca_line
ca_line-is_marked pattern ca_pubkey =
    rw (starts_with-append (pattern ++ codes " ") (strip is_space ca_pubkey ++ (10 ∷ [])))

module _ (p : Text → Bool) where
  select-append : (xs ys : List Text) → select p (xs ++ ys) ≡ select p xs ++ select p ys
  select-append [] ys = refl
  select-append (x ∷ xs) ys = ground (arith, select-append xs ys)

  select-not : (xs : List Text) → select p (select (λ x. not (p x)) xs) ≡ []
  select-not [] = refl
  select-not (x ∷ xs) = ground (arith, select-not xs)

  select_twice :
      (xs : List Text)
      → select (λ x. not (p x)) (select (λ x. not (p x)) xs) ≡ select (λ x. not (p x)) xs
  select_twice [] = refl
  select_twice (x ∷ xs) = ground (arith, select_twice xs)

  length-nil : (xs : List Text) → length xs ≤ 0 → xs ≡ []
  length-nil [] h = refl
  length-nil (x ∷ xs) h = absurd (omega arith)

  length-select-contains :
      (line : Text) (xs : List Text)
      → p line ≡ true
      → contains xs line ≡ true
      → 1 ≤ length (select p xs)
  length-select-contains line [] chosen h = cc
  length-select-contains line (x ∷ xs) chosen h = elim (Bool-cases (p x)) [
    | inl taken ↦ rw taken (omega arith)
    | inr left ↦ elim (Bool-cases (x == line)) [
      | inl same ↦ absurd (cc (sym left, ap p ((eq_iff x line).0 same), chosen))
      | inr other ↦ rw left (length-select-contains line xs chosen (rw other at h))
    ]
  ]

  -- A chosen line of which there is no other.
  select-contains :
      (line : Text) (xs : List Text)
      → p line ≡ true
      → contains xs line ≡ true
      → length (select p xs) ≤ 1
      → select p xs ≡ line ∷ []
  select-contains line [] chosen h single = cc
  select-contains line (x ∷ xs) chosen h single = elim (Bool-cases (x == line)) [
    | inl same ↦
        let is_line : x ≡ line = (eq_iff x line).0 same in
        let taken : p x ≡ true = ap p is_line ∙ chosen in
        rw taken (ap₂ (λ y ys. y ∷ ys) is_line (length-nil (select p xs) (alone taken)))
    | inr other ↦ elim (Bool-cases (p x)) [
      | inl taken ↦
          absurd (omega (arith, alone taken, length-select-contains line xs chosen (rw other at h)))
      | inr left ↦ rw left (select-contains line xs chosen (rw other at h) (rw left at single))
    ]
  ]
    where
      alone : p x ≡ true → length (select p xs) ≤ 0
      alone taken = let two : length (x ∷ select p xs) ≤ 1 = rw taken at single in omega arith

-- A line with its newline, and no other break.
pub record IsLine (l : Text) : Type 0 where
  pub body : Text
  pub shape : l ≡ body ++ (10 ∷ [])
  pub unbroken : any is_break body ≡ false

lines_of-line :
    (body t : Text)
    → any is_break body ≡ false
    → lines_of (body ++ (10 ∷ t)) ≡ (body ++ (10 ∷ [])) ∷ lines_of t
unfolding lines_of
lines_of-line [] t h = refl
lines_of-line (c ∷ body) t h = elim (Bool-cases (is_break c)) [
  | inl breaks ↦ cc (rw breaks at h)
  | inr letter ↦ rw (letter, lines_of-line body t (rw letter at h)) refl
]

lines_of-concat : (ls : List Text) → All IsLine ls → lines_of (concat ls) ≡ ls
lines_of-concat [] a = unfold lines_of in refl
lines_of-concat (l ∷ ls) (line, others) =
    ap (λ k. lines_of (k ++ concat ls)) line.shape
    ∙ ap lines_of (append_assoc line.body (10 ∷ []) (concat ls))
    ∙ lines_of-line line.body (concat ls) line.unbroken
    ∙ ap₂ (λ k ks. k ∷ ks) (sym line.shape) (lines_of-concat ls others)

concat-append : (ls : List Text) (l : Text) → concat (ls ++ (l ∷ [])) ≡ concat ls ++ l
concat-append [] l = append-nil l
concat-append (k ∷ ls) l =
    ap (λ t. k ++ t) (concat-append ls l) ∙ sym (append_assoc k (concat ls) l)

any-append :
    (s t : Text) → any is_break s ≡ false → any is_break t ≡ false → any is_break (s ++ t) ≡ false
any-append [] t h k = k
any-append (c ∷ s) t h k = elim (Bool-cases (is_break c)) [
  | inl breaks ↦ cc (rw breaks at h)
  | inr letter ↦ rw letter (any-append s t (rw letter at h) k)
]

All-append : (ls : List Text) (l : Text) → All IsLine ls → IsLine l → All IsLine (ls ++ (l ∷ []))
All-append [] l a line = (line, tt)
All-append (k ∷ ls) l a line = (a.0, All-append ls l a.1 line)

module _ (is_address : Text → Bool) (host ca_pubkey : Text) where
  abbrev pattern_of : Text
  pattern_of = host_pattern is_address host

  -- What writing does to the lines of the file.
  abbrev updated : List Text → List Text
  updated existing =
      if contains existing (ca_line pattern_of ca_pubkey)
      then existing
      else select (λ l. not (is_marked pattern_of l)) existing
        ++ (ca_line pattern_of ca_pubkey ∷ [])

  updated_lem :
      (existing : List Text)
      → length (select (is_marked pattern_of) existing) ≤ 1
      → let lines = updated existing in
        (select (is_marked pattern_of) lines ≡ ca_line pattern_of ca_pubkey ∷ [])
        × (select (λ l. not (is_marked pattern_of l)) lines
            ≡ select (λ l. not (is_marked pattern_of l)) existing)
  updated_lem existing single =
      elim (Bool-cases (contains existing (ca_line pattern_of ca_pubkey))) [
        | inl there ↦ rw there (
          select-contains (is_marked pattern_of) (ca_line pattern_of ca_pubkey) existing marked
              there single,
          refl,
        )
        | inr new ↦
            rw
              (
                new,
                select-append (is_marked pattern_of)
                    (select (λ l. not (is_marked pattern_of l)) existing)
                    (ca_line pattern_of ca_pubkey ∷ []),
                select-not (is_marked pattern_of) existing,
                select-append (λ l. not (is_marked pattern_of l))
                    (select (λ l. not (is_marked pattern_of l)) existing)
                    (ca_line pattern_of ca_pubkey ∷ []),
                select_twice (is_marked pattern_of) existing,
              )
              (
                rw marked refl,
                rw (marked, append-nil (select (λ l. not (is_marked pattern_of l)) existing)) refl,
              )
      ]
    where
      marked : is_marked pattern_of (ca_line pattern_of ca_pubkey) ≡ true
      marked = ca_line-is_marked pattern_of ca_pubkey

  ca_line-IsLine :
      any is_break pattern_of ≡ false
      → any is_break (strip is_space ca_pubkey) ≡ false
      → IsLine (ca_line pattern_of ca_pubkey)
  unfolding ca_line
  ca_line-IsLine whole one_line = record {
    body = marker pattern_of ++ strip is_space ca_pubkey;
    shape = sym (append_assoc (marker pattern_of) (strip is_space ca_pubkey) (10 ∷ []));
    unbroken =
        any-append (marker pattern_of) (strip is_space ca_pubkey)
          (any-append (codes "@cert-authority ") (pattern_of ++ codes " ") refl
            (any-append pattern_of (codes " ") whole refl))
          one_line;
  }

  updated-IsLine :
      (existing : List Text)
      → IsLine (ca_line pattern_of ca_pubkey)
      → All IsLine existing
      → All IsLine (updated existing)
  updated-IsLine existing line a =
      elim (Bool-cases (contains existing (ca_line pattern_of ca_pubkey))) [
        | inl there ↦ rw there a
        | inr new ↦ rw new (
            All-append (select (λ l. not (is_marked pattern_of l)) existing) _
              (All-select (λ l. not (is_marked pattern_of l)) existing (λ l h kept. h) a) line)
      ]

  write_known_hosts-updated :
      (existing : List Text)
      → All IsLine existing
      → write_known_hosts is_address host ca_pubkey (concat existing) ≡ concat (updated existing)
  unfolding write_known_hosts
  write_known_hosts-updated existing a =
      elim (Bool-cases (contains existing (ca_line pattern_of ca_pubkey))) [
        | inl there ↦ rw (lines_of-concat existing a, there) refl
        | inr new ↦
            rw (lines_of-concat existing a, new)
              (sym (
                concat-append (select (λ l. not (is_marked pattern_of l)) existing)
                  (ca_line pattern_of ca_pubkey)))
      ]

  -- Where the file is lines that end in newlines, at most one of them of an authority for the pattern
  -- of the host, writing leaves such a file: that line is now of this authority, whose key is one
  -- line, and the other lines are as they were.
  pub write_known_hosts_lem :
      (existing : List Text)
      → All IsLine existing
      → length (select (is_marked pattern_of) existing) ≤ 1
      → any is_break pattern_of ≡ false
      → any is_break (strip is_space ca_pubkey) ≡ false
      → (lines : List Text) × (write_known_hosts is_address host ca_pubkey (concat existing)
          ≡ concat lines)
        × All IsLine lines
        × (select (is_marked pattern_of) lines ≡ ca_line pattern_of ca_pubkey ∷ [])
        × (select (λ l. not (is_marked pattern_of l)) lines
            ≡ select (λ l. not (is_marked pattern_of l)) existing)
  write_known_hosts_lem existing a single whole one_line =
      let (marked, others) = updated_lem existing single in
      (
        updated existing,
        write_known_hosts-updated existing a,
        updated-IsLine existing (ca_line-IsLine whole one_line) a,
        marked,
        others,
      )
