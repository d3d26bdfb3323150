-- ===== src/Certificates/Principals.antt =====
-- What `ssh-keygen` reads: the principals that were asked for, and one key.
use cawl.Prelude.{
  List, Text, ℕ, All, Bool, any, nat_beq, ◌∷◌, ◌≡◌, false, Bool-cases, [], true, ◌++◌, inl, refl,
  arith, inr, sym, ◌∙◌, ap, ◌||◌, ok, subst, Result-cases,
}
use cawl.Certificates.{
  join, split_at, is_bad_principal, is_break, is_separator, clean_pubkey, filled_lines, one_key,
  sign_user, sign, SshCertAuthority, is_pubkey, Command, user_options,
}
use cawl.Naming.Labels.{drop_end, drop_while, drop_while_end, strip}
use cawl.Params.{empty_text}
use cawl.Params.Patterns.{is_space}

abbrev pub is_comma : ℕ → Bool
is_comma c = nat_beq c b','

or_false : (a b : Bool) → a || b ≡ false → (a ≡ false) × (b ≡ false)
or_false a b h = (ground arith, ground arith)

split_at-none : (p : ℕ → Bool) (s : Text) → any p s ≡ false → split_at p s ≡ s ∷ []
unfolding split_at
split_at-none p [] h = refl
split_at-none p (c ∷ s) h = elim (Bool-cases (p c)) [
  | inl splits ↦ absurd (ground (arith, splits))
  | inr plain ↦ rw (plain, split_at-none p s (sym (rw plain) ∙ h)) refl
]

split_at-append :
    (p : ℕ → Bool) (s t : Text) (c : ℕ)
    → any p s ≡ false
    → p c ≡ true
    → split_at p (s ++ (c ∷ t)) ≡ s ∷ split_at p t
unfolding split_at
split_at-append p [] t c h e = rw e refl
split_at-append p (d ∷ s) t c h e = elim (Bool-cases (p d)) [
  | inl splits ↦ absurd (ground (arith, splits))
  | inr plain ↦ rw (plain, split_at-append p s t c (sym (rw plain) ∙ h) e) refl
]

any-comma : (s : Text) → any is_separator s ≡ false → any is_comma s ≡ false
any-comma [] h = refl
any-comma (c ∷ s) h =
    let (one, others) = or_false (is_separator c) (any is_separator s) h in
    let (space, comma) = or_false (is_space c) (is_comma c) one in
    rw (any-comma s others) (ground (arith, comma))

good_principal : (p : Text) → is_bad_principal p ≡ false → any is_comma p ≡ false
good_principal p h = any-comma p (or_false (empty_text p) (any is_separator p) h).1

split_at-join :
    (p : Text) (ps : List Text)
    → any is_bad_principal (p ∷ ps) ≡ false
    → split_at is_comma (join (p ∷ ps)) ≡ p ∷ ps
unfolding join
split_at-join p [] h =
    split_at-none is_comma p (good_principal p (or_false (is_bad_principal p) false h).0)
split_at-join p (q ∷ ps) h =
    let (one, others) = or_false (is_bad_principal p) (any is_bad_principal (q ∷ ps)) h in
    split_at-append is_comma p (join (q ∷ ps)) b',' (good_principal p one) refl
    ∙ ap (λ lines. p ∷ lines) (split_at-join q ps others)

-- A line without a line break.
abbrev IsWhole : Text → Type 0
IsWhole line = any is_break line ≡ false

extended-IsWhole :
    (c : ℕ) (lines : List Text)
    → is_break c ≡ false
    → All IsWhole lines
    → All IsWhole (elim lines [ [] ↦ (c ∷ []) ∷ [] | line ∷ rest ↦ (c ∷ line) ∷ rest ])
extended-IsWhole c [] h a = (ground (arith, h), tt)
extended-IsWhole c (line ∷ rest) h a = (ground (arith, h, a.0), a.1)

split_at-IsWhole : (s : Text) → All IsWhole (split_at is_break s)
unfolding split_at
split_at-IsWhole [] = (refl, tt)
split_at-IsWhole (c ∷ s) = elim (Bool-cases (is_break c)) [
  | inl splits ↦ rw splits (refl, split_at-IsWhole s)
  | inr plain ↦ rw plain (extended-IsWhole c (split_at is_break s) plain (split_at-IsWhole s))
]

drop_while-IsWhole : (p : ℕ → Bool) (s : Text) → IsWhole s → IsWhole (drop_while p s)
unfolding drop_while
drop_while-IsWhole p [] h = refl
drop_while-IsWhole p (c ∷ s) h =
    let (one, others) = or_false (is_break c) (any is_break s) h in
    elim (Bool-cases (p c)) [
      | inl gone ↦ rw gone (drop_while-IsWhole p s others)
      | inr stays ↦ rw stays h
    ]

drop_end-IsWhole :
    (p : ℕ → Bool) (c : ℕ) (s : Text) → is_break c ≡ false → IsWhole s → IsWhole (drop_end p c s)
drop_end-IsWhole p c [] one h = elim (Bool-cases (p c)) [
  | inl gone ↦ rw gone refl
  | inr stays ↦ rw (stays, one) refl
]
drop_end-IsWhole p c (d ∷ t) one h = rw one h

drop_while_end-IsWhole : (p : ℕ → Bool) (s : Text) → IsWhole s → IsWhole (drop_while_end p s)
unfolding drop_while_end
drop_while_end-IsWhole p [] h = refl
drop_while_end-IsWhole p (c ∷ s) h =
    let (one, others) = or_false (is_break c) (any is_break s) h in
    drop_end-IsWhole p c (drop_while_end p s) one (drop_while_end-IsWhole p s others)

strip-IsWhole : (p : ℕ → Bool) (s : Text) → IsWhole s → IsWhole (strip p s)
unfolding strip
strip-IsWhole p s h = drop_while_end-IsWhole p (drop_while p s) (drop_while-IsWhole p s h)

filled_lines-IsWhole : (lines : List Text) → All IsWhole lines → All IsWhole (filled_lines lines)
unfolding filled_lines
filled_lines-IsWhole [] a = tt
filled_lines-IsWhole (line ∷ lines) a = elim (Bool-cases (empty_text (strip is_space line))) [
  | inl blank ↦ rw blank (filled_lines-IsWhole lines a.1)
  | inr filled ↦ rw filled (strip-IsWhole is_space line a.0, filled_lines-IsWhole lines a.1)
]

one_key-IsWhole :
    (lines : List Text) (key : Text) → one_key lines ≡ ok key → All IsWhole lines → IsWhole key
unfolding one_key
one_key-IsWhole [] key h a = cc
one_key-IsWhole (line ∷ []) key h a = elim (Bool-cases (is_pubkey line)) [
  | inr bad ↦ absurd (ground (arith, bad))
  | inl good ↦ let same : line ≡ key = ground (arith, good) in subst IsWhole same a.0
]
one_key-IsWhole (line ∷ other ∷ lines) key h a = cc

clean_pubkey-IsWhole : (text key : Text) → clean_pubkey text ≡ ok key → IsWhole key
unfolding clean_pubkey
clean_pubkey-IsWhole text key h =
    one_key-IsWhole (filled_lines (split_at is_break text)) key h
      (filled_lines-IsWhole (split_at is_break text) (split_at-IsWhole text))

abbrev user_command : SshCertAuthority → Text → Text → Text → Command
user_command ca key environment_id actor = record {
  key_id = actor ++ (b'@' ∷ environment_id);
  principals = join (environment_id ∷ []);
  validity = b'+' ∷ ca.user_ttl;
  host = false;
  options = user_options ca;
  public_key = key;
}

-- A certificate that is signed for a user is what `ssh-keygen` makes of one key on one line, and of a
-- list of principals that reads as the environment alone.
pub sign_user_lem :
    (ca : SshCertAuthority) (public_key environment_id actor certificate : Text)
    → sign_user ca public_key environment_id actor ≡ ok certificate
    → (key : Text) × (command : Command) × (clean_pubkey public_key ≡ ok key)
      × (ca.keygen command ≡ ok certificate)
      × (command.public_key ≡ key)
      × (any is_break key ≡ false)
      × (split_at is_comma command.principals ≡ environment_id ∷ [])
      × (command.host ≡ false)
unfolding sign_user sign
sign_user_lem ca public_key environment_id actor certificate h = elim (Bool-cases ca.has_key) [
  | inr none_ ↦ absurd (ground (arith, none_))
  | inl there ↦ elim (Bool-cases (any is_bad_principal (environment_id ∷ []))) [
    | inl bad ↦ absurd (ground (arith, there, bad))
    | inr good ↦ elim (Result-cases (clean_pubkey public_key)) [
      | inr (e, unclean) ↦ absurd (ground (arith, there, good, unclean))
      | inl (key, clean) ↦ (
        key,
        user_command ca key environment_id actor,
        clean,
        sym (rw (there, good, clean)) ∙ h,
        refl,
        clean_pubkey-IsWhole public_key key clean,
        split_at-join environment_id [] good,
        refl,
      )
    ]
  ]
]
