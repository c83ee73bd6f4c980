-- ===== src/Pii/Valid.antt =====
-- What the candidates of `detectPII` have in common.
use cpa_plugin_privacyfilter.Base.{
  ℕ, suc, ◌-◌, ◌%◌, get_elem?, ◌<◌, ◌≤◌, Bool, true, false, not, ◌&&◌, ◌||◌, [], ◌∷◌, ◌≡◌, refl,
  ltb, ◌==◌, if◌then◌else◌, none, some, Option, true≢false, List, Bytes, length, arith,
}
use cpa_plugin_privacyfilter.Base.Text.{is_digit, byte_is, codes}
use cpa_plugin_privacyfilter.Base.Int.{ℤ, pos, pos_part}
use cpa_plugin_privacyfilter.Spans.{Candidate, Kind, email, phone, id_card, ip, bank_card, is_valid}
use cpa_plugin_privacyfilter.Matching.{Regex, Scan, ◌▷◌, check, for_each_match}
use cpa_plugin_privacyfilter.Matching.Bounds.{
  finish-Emits, if-Fits, Finds, Emits, Fits, ▷-Emits, check-Emits, for_each_match-Emits,
}
use cpa_plugin_privacyfilter.Matching.Induction.{if-R}
use cpa_plugin_privacyfilter.Pii.Luhn.{checksum, Digits, luhn_valid-checksum}
use cpa_plugin_privacyfilter.Pii.Public.{
  Alone, Public, or_false, touches-Alone, is_non_public_ipv4-Public,
}
use mathlib.Core.List.{reverse}
use cpa_plugin_privacyfilter.Pii.{
  touches, is_example_bank_card, has_payment_card_prefix, digit_bounded, ip_bounded, sub_text,
  luhn_valid, is_non_public_ipv4, parse_ipv4, Patterns, is_remote_path, candidate_of, email_visit,
  phone_visit, id_card_visit, ip_visit, bank_card_visit, with_digit, numbers, detect_pii,
}

pub record AllFind (p : Patterns) : Type 0 where
  pub email_finds : Finds p.email_address
  pub phone_finds : Finds p.phone_number
  pub id_finds : Finds p.id_number
  pub bank_finds : Finds p.bank_number
  pub ip_finds : Finds p.ip_address

-- What each kind of candidate promises: a number is not a part of a longer run of digits, a card
-- number has the checksum of ISO/IEC 7812-1, and an address is not in a special block.
abbrev pub SoundAs : Kind → Bytes → ℤ → ℤ → Type 0
SoundAs email text start stop = Unit {0}
SoundAs bank_card text start stop =
    Alone text (pos_part start) (pos_part stop)
    × Digits (sub_text text start stop)
    × (checksum (reverse (sub_text text start stop)) % 10 ≡ 0)
SoundAs ip text start stop =
    Alone text (pos_part start) (pos_part stop)
    × ((vs : List ℕ) → parse_ipv4 (sub_text text start stop) ≡ some vs → Public vs)
SoundAs _ text start stop = Alone text (pos_part start) (pos_part stop)

-- A candidate that the collector accepts, and that keeps the promise of its kind.
abbrev pub Sound : Bytes → Candidate → Type 0
Sound text k = (is_valid (length text) k ≡ true) × SoundAs k.kind text k.start k.stop

in_text :
    (text : Bytes) (kind : Kind) (rule : Bytes) (a b : ℕ)
    → a < b
    → b ≤ length text
    → is_valid (length text) (record { start = pos a; stop = pos b; kind = kind; rule_id = rule })
      ≡ true
unfolding is_valid
in_text text kind rule a b lt le = ground arith

not-false : (a : Bool) → not a ≡ false → a ≡ true
not-false true h = refl
not-false false h = absurd (true≢false h)

byte_more :
    (test more : ℕ → Bool) (text : Bytes)
    → ((c : ℕ) → more c ≡ false → test c ≡ false)
    → (b : Bool) (i : ℕ) → (b && byte_is more text i) ≡ false
    → (b && byte_is test text i) ≡ false
byte_more test more text h false i n = refl
byte_more test more text h true i n =
    elim (get_elem? text i)
        as (λ o.
          (elim o [ none ↦ false | some c ↦ more c ]) ≡ false
          → (elim o [ none ↦ false | some c ↦ test c ]) ≡ false) [
            | none ↦ λ m. refl
            | some c ↦ λ m. h c m
          ]
      n

-- A test of the byte beside the match that accepts more.
touches_more :
    (test more : ℕ → Bool) (text : Bytes) (start stop : ℕ)
    → ((c : ℕ) → more c ≡ false → test c ≡ false)
    → touches more text start stop ≡ false
    → touches test text start stop ≡ false
touches_more test more text start stop h n =
    let (x, y) = or_false (ltb 0 start && byte_is more text (start - 1)) _ n in
    rw (byte_more test more text h (ltb 0 start) (start - 1) x)
      (byte_more test more text h (ltb stop (length text)) stop y)

ip_bounded-digit_bounded :
    (text : Bytes) (start stop : ℤ)
    → ip_bounded text start stop ≡ true
    → digit_bounded text start stop ≡ true
unfolding ip_bounded digit_bounded
ip_bounded-digit_bounded text start stop h = ground (
  arith,
  touches_more is_digit (λ c. is_digit c || c == 46) text (pos_part start) (pos_part stop)
      (λ c n. ground arith),
)

digit_bounded-Alone :
    (text : Bytes) (start stop : ℤ)
    → digit_bounded text start stop ≡ true
    → Alone text (pos_part start) (pos_part stop)
unfolding digit_bounded
digit_bounded-Alone text start stop h =
    touches-Alone text (pos_part start) (pos_part stop) (ground arith)

module _ (text : Bytes) (a b : ℕ) (lt : a < b) (le : b ≤ length text) where
  unless-Sound :
      (test : Bool) (kind : Kind) (rule : Bytes)
      → (test ≡ false → SoundAs kind text (pos a) (pos b))
      → Fits (Sound text) (if test then none else candidate_of kind rule (pos a) (pos b))
  unless-Sound true kind rule h = tt
  unless-Sound false kind rule h = (in_text text kind rule a b lt le, h refl)

  when-Sound :
      (test : Bool) (kind : Kind) (rule : Bytes)
      → (test ≡ true → SoundAs kind text (pos a) (pos b))
      → Fits (Sound text) (if test then candidate_of kind rule (pos a) (pos b) else none)
  when-Sound true kind rule h = (in_text text kind rule a b lt le, h refl)
  when-Sound false kind rule h = tt

  email_visit-Sound :
      (to_lower : Bytes → Bytes) → Fits (Sound text) (email_visit to_lower text (pos a) (pos b))
  unfolding email_visit
  email_visit-Sound to_lower =
      if-Fits (Sound text) (is_remote_path text b) none _ (λ h. tt)
        (λ h. unless-Sound _ email (codes "pii.email") (λ g. tt))

  phone_visit-Sound : Fits (Sound text) (phone_visit text (pos a) (pos b))
  unfolding phone_visit
  phone_visit-Sound =
      when-Sound _ phone (codes "pii.phone-cn") (digit_bounded-Alone text (pos a) (pos b))

  id_card_visit-Sound : Fits (Sound text) (id_card_visit text (pos a) (pos b))
  unfolding id_card_visit
  id_card_visit-Sound =
      when-Sound _ id_card (codes "pii.id-card-cn") (digit_bounded-Alone text (pos a) (pos b))

  ip_visit-Sound : Fits (Sound text) (ip_visit text (pos a) (pos b))
  unfolding ip_visit
  ip_visit-Sound =
      unless-Sound
        (not (ip_bounded text (pos a) (pos b))
          || is_non_public_ipv4 (sub_text text (pos a) (pos b)))
        ip (codes "pii.ipv4")
        (λ h.
          let (y, n) = or_false (not (ip_bounded text (pos a) (pos b))) _ h in
          (
            digit_bounded-Alone text (pos a) (pos b)
                (ip_bounded-digit_bounded text (pos a) (pos b) (not-false _ y)),
            is_non_public_ipv4-Public (sub_text text (pos a) (pos b)) n,
          ))

  bank_card_visit-Sound : Fits (Sound text) (bank_card_visit text (pos a) (pos b))
  unfolding bank_card_visit
  bank_card_visit-Sound =
      let number : Bytes = sub_text text (pos a) (pos b) in
      let bounded = not (digit_bounded text (pos a) (pos b)) in
      let prefix = not (has_payment_card_prefix number) in
      let luhn = not (luhn_valid number) in
      unless-Sound (bounded || prefix || luhn || is_example_bank_card number) bank_card
        (codes "pii.bank-card")
        (λ h.
          let (h3, example) = or_false (bounded || prefix || luhn) _ h in
          let (h2, l) = or_false (bounded || prefix) luhn h3 in
          let (_, digits, sum) = (luhn_valid-checksum number).0 (not-false _ l) in
          (
            digit_bounded-Alone text (pos a) (pos b) (not-false _ (or_false bounded prefix h2).0),
            digits,
            sum,
          ))

with_digit-Emits :
    (P : Candidate → Type 0) (done : ℕ → Bool) (k : Scan) (i : ℕ) (text : Bytes)
    → Emits P k
    → Emits P (with_digit done k i text)
unfolding with_digit
with_digit-Emits P done k i [] h = finish-Emits P
with_digit-Emits P done k i (c ∷ cs) h =
    let rest = with_digit done k (suc i) cs in
    let here : Emits P (if is_digit c then k else rest) =
      if-R (Emits P) (is_digit c) k rest h (with_digit-Emits P done k (suc i) cs h) in
    if-R (Emits P) (i % 4096 == 0) (check done ▷ (if is_digit c then k else rest))
      (if is_digit c then k else rest)
      (▷-Emits P (check done) (if is_digit c then k else rest) (check-Emits P done) here) here

-- Whatever the context does, every candidate of `detectPII` is one that the collector accepts, with
-- bounds in the text; an IPv4 address, an identity number, a phone number or a card number has no
-- digit next to it; an IPv4 address, if it can be parsed, is in none of the blocks for loopback,
-- private, link-local, unspecified, multicast and documentation addresses; a card number consists of
-- digits with the checksum of ISO/IEC 7812-1. The expressions are to give the bounds of a nonempty
-- match in the text.
pub detect_pii-Sound :
    (done : ℕ → Bool) (to_lower : Bytes → Bytes) (p : Patterns) (text : Bytes)
    → AllFind p
    → Emits (Sound text) (detect_pii done to_lower p text)
unfolding detect_pii numbers
detect_pii-Sound done to_lower p text f =
    let P : Candidate → Type 0 = Sound text in
    let run : (re : Regex) (visit : ℤ → ℤ → Option Candidate)
        → Finds re
        → ((a b : ℕ) → a < b → b ≤ length text → Fits P (visit (pos a) (pos b)))
        → Emits P (for_each_match done re text visit) =
      λ re visit. for_each_match-Emits P done re text visit in
    let emails = for_each_match done p.email_address text (email_visit to_lower text) in
    let phones = for_each_match done p.phone_number text (phone_visit text) in
    let ids = for_each_match done p.id_number text (id_card_visit text) in
    let ips = for_each_match done p.ip_address text (ip_visit text) in
    let cards = for_each_match done p.bank_number text (bank_card_visit text) in
    ▷-Emits P emails (with_digit done (phones ▷ ids ▷ ips ▷ cards) 0 text)
      (run p.email_address (email_visit to_lower text) f.email_finds
        (λ a b lt le. email_visit-Sound text a b lt le to_lower))
      (with_digit-Emits P done (phones ▷ ids ▷ ips ▷ cards) 0 text (
        ▷-Emits P (phones ▷ ids ▷ ips) cards
          (▷-Emits P (phones ▷ ids) ips
            (▷-Emits P phones ids
              (run p.phone_number (phone_visit text) f.phone_finds (phone_visit-Sound text))
              (run p.id_number (id_card_visit text) f.id_finds (id_card_visit-Sound text)))
            (run p.ip_address (ip_visit text) f.ip_finds (ip_visit-Sound text)))
          (run p.bank_number (bank_card_visit text) f.bank_finds (bank_card_visit-Sound text))))
