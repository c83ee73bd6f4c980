-- ===== src/Pii.antt =====
-- internal/privacyengine/pii.go: the checks on a match, and `detectPII`. The five regular
-- expressions are arguments, and so is `strings.ToLower`, which goes by the Unicode tables.
pub mod Luhn
pub mod Public
pub mod Valid
use cpa_plugin_privacyfilter.Base.{
  ℕ, zero, suc, ◌+◌, ◌-◌, ◌*◌, ◌%◌, Bool, true, false, not, ◌&&◌, ◌||◌, Option, none, some, List,
  [], ◌∷◌, ltb, leb, ◌==◌, if◌then◌else◌, Bytes, bytes_eq, length, take, drop, slice, get_elem?,
}
use cpa_plugin_privacyfilter.Base.Int.{ℤ, pos, pos_part, ltb_ℤ}
use cpa_plugin_privacyfilter.Base.Text.{
  codes, is_digit, ends_with, contains, last_index_byte, any_of, byte_is,
}
use cpa_plugin_privacyfilter.Spans.{Kind, email, phone, id_card, bank_card, ip, Candidate}
use cpa_plugin_privacyfilter.Matching.{Regex, Scan, finish, ◌▷◌, check, for_each_match}
use mathlib.Core.List.{reverse}

-- `text[start:end]`
abbrev pub sub_text : Bytes → ℤ → ℤ → Bytes
sub_text text start stop = slice text (pos_part start) (pos_part stop)

abbrev pub ssh_commands : List Bytes
ssh_commands =
    codes "ssh "
    ∷ codes "scp "
    ∷ codes "rsync "
    ∷ codes "sftp "
    ∷ codes "ssh-copy-id "
    ∷ codes "ssh-keygen "
    ∷ []

-- `strings.LastIndexByte(text[:n], '\n') + 1`
abbrev pub line_start : Bytes → ℕ → ℕ
line_start text n = elim (last_index_byte 10 (take n text)) [ none ↦ 0 | some i ↦ suc i ]

unfoldable pub is_in_ssh_command_context : Bytes → ℤ → Bool
unfolding contains any_of last_index_byte
is_in_ssh_command_context text start =
    if ltb_ℤ start (pos 0) || ltb_ℤ (pos (length text)) start
    then false
    else any_of (contains (slice text (line_start text (pos_part start)) (pos_part start)))
        ssh_commands

-- `start < 0 || start > end || end > len(text)`
abbrev pub out_of_range : Bytes → ℤ → ℤ → Bool
out_of_range text start stop =
    ltb_ℤ start (pos 0) || ltb_ℤ stop start || ltb_ℤ (pos (length text)) stop

-- Whether the byte before `start`, or the one at `stop`, is one that the test accepts.
abbrev pub touches : (ℕ → Bool) → Bytes → ℕ → ℕ → Bool
touches test text start stop =
    (ltb 0 start && byte_is test text (start - 1))
    || (ltb stop (length text) && byte_is test text stop)

unfoldable pub digit_bounded : Bytes → ℤ → ℤ → Bool
digit_bounded text start stop =
    not (out_of_range text start stop)
    && not (touches is_digit text (pos_part start) (pos_part stop))

unfoldable pub ip_bounded : Bytes → ℤ → ℤ → Bool
ip_bounded text start stop =
    not (out_of_range text start stop)
    && not (touches (λ c. is_digit c || c == 46) text (pos_part start) (pos_part stop))

unfoldable pub is_documentation_domain : Bytes → Bool
unfolding bytes_eq ends_with any_of
is_documentation_domain domain =
    any_of (bytes_eq domain)
      (codes "example.com" ∷ codes "example.org" ∷ codes "example.net" ∷ codes "example.edu" ∷ [])
    || ends_with domain (codes ".invalid")
    || ends_with domain (codes ".localhost")

unfoldable pub is_documentation_email : (Bytes → Bytes) → Bytes → Bool
unfolding is_documentation_domain last_index_byte
is_documentation_email to_lower address = elim (last_index_byte 64 address) [
  | none ↦ false
  | some at ↦
      if leb (length address) (at + 1)
      then false
      else is_documentation_domain (to_lower (drop (at + 1) address))
]

-- One decimal field of `net.ParseIP`: digits with no leading zero, at most 255. `some v` while it
-- is read.
abbrev pub field_digit : Option ℕ → ℕ → Option ℕ
field_digit none c = if is_digit c then some (c - 48) else none
field_digit (some v) c =
    if not (is_digit c) || v == 0 || ltb 255 (v * 10 + (c - 48))
    then none
    else some (v * 10 + (c - 48))

-- The fields of a dotted address from a field that has been read as far as `current`.
unfoldable pub parse_fields : Option ℕ → Bytes → Option (List ℕ)
parse_fields current [] = elim current [ none ↦ none | some v ↦ some (v ∷ []) ]
parse_fields current (c ∷ cs) =
    let later : Option (List ℕ) = elim current [
      | none ↦ none
      | some v ↦ elim (parse_fields none cs) [ none ↦ none | some vs ↦ some (v ∷ vs) ]
    ] in
    let digit : Option (List ℕ) = elim (field_digit current c) [
      | none ↦ none
      | some w ↦ parse_fields (some w) cs
    ] in
    if c == 46 then later else digit

-- `net.ParseIP(value).To4()` for a text with no colon
unfoldable pub parse_ipv4 : Bytes → Option (List ℕ)
unfolding parse_fields
parse_ipv4 text = elim (parse_fields none text) [
  | none ↦ none
  | some vs ↦ if length vs == 4 then some vs else none
]

-- Loopback, private, link-local, unspecified and multicast addresses, and those of RFC 5737.
abbrev pub is_non_public : List ℕ → Bool
is_non_public (a ∷ b ∷ c ∷ d ∷ []) =
    a == 127
    || a == 10
    || (a == 172 && leb 16 b && leb b 31)
    || (a == 192 && b == 168)
    || (a == 169 && b == 254)
    || (a == 0 && b == 0 && c == 0 && d == 0)
    || (leb 224 a && leb a 239)
    || (a == 192 && b == 0 && c == 2)
    || (a == 198 && b == 51 && c == 100)
    || (a == 203 && b == 0 && c == 113)
is_non_public _ = false

unfoldable pub is_non_public_ipv4 : Bytes → Bool
unfolding parse_ipv4
is_non_public_ipv4 text = elim (parse_ipv4 text) [ none ↦ false | some vs ↦ is_non_public vs ]

-- The loop that looks for a digit other than the first.
unfoldable pub all_same : ℕ → Bytes → Bool
all_same first [] = true
all_same first (c ∷ cs) = c == first && all_same first cs

unfoldable pub is_example_bank_card : Bytes → Bool
unfolding all_same bytes_eq any_of
is_example_bank_card [] = false
is_example_bank_card (c ∷ cs) =
    all_same c cs
    || any_of (bytes_eq (c ∷ cs)) (
        codes "4111111111111111"
        ∷ codes "4242424242424242"
        ∷ codes "4000000000000002"
        ∷ codes "5555555555554444"
        ∷ codes "378282246310005"
        ∷ [])

abbrev pub weigh : Bool → ℕ → ℕ
weigh true digit = if ltb 9 (digit * 2) then digit * 2 - 9 else digit * 2
weigh false digit = digit

-- The loop of `luhnValid`, over the bytes from the last to the first; `none` is its early `false`.
unfoldable pub luhn_loop : Bool → ℕ → Bytes → Option ℕ
luhn_loop double sum [] = some sum
luhn_loop double sum (c ∷ cs) =
    if is_digit c then luhn_loop (not double) (sum + weigh double (c - 48)) cs else none

abbrev pub is_multiple : Option ℕ → Bool
is_multiple none = false
is_multiple (some sum) = sum % 10 == 0

unfoldable pub luhn_valid : Bytes → Bool
unfolding luhn_loop
luhn_valid [] = false
luhn_valid (c ∷ cs) = is_multiple (luhn_loop false 0 (reverse (c ∷ cs)))

abbrev pub card_prefix : ℕ → ℕ → ℕ → Bool
card_prefix n a b =
    if a == 52
    then n == 13 || n == 16 || n == 19
    else if a == 53
    then n == 16 && leb 49 b && leb b 53
    else if a == 51
    then n == 15 && (b == 52 || b == 55)
    else false

unfoldable pub has_payment_card_prefix : Bytes → Bool
has_payment_card_prefix (a ∷ b ∷ cs) =
    if ltb (length (a ∷ b ∷ cs)) 13 then false else card_prefix (length (a ∷ b ∷ cs)) a b
has_payment_card_prefix _ = false

-- `start == 0 || (text[start-1] != ':' && text[start-1] != '/')`
unfoldable pub is_email_boundary : Bytes → ℤ → Bool
is_email_boundary text start =
    let s = pos_part start in s == 0 || not (byte_is (λ c. c == 58 || c == 47) text (s - 1))

abbrev pub candidate_of : Kind → Bytes → ℤ → ℤ → Option Candidate
candidate_of kind rule start stop =
    some (record { start = start; stop = stop; kind = kind; rule_id = rule })

-- A colon after the address, with a byte after it that is no space: `user@host:path`.
abbrev pub is_remote_path : Bytes → ℕ → Bool
is_remote_path text stop =
    byte_is (λ c. c == 58) text stop && byte_is (λ c. not (c == 32) && not (c == 9)) text (stop + 1)

-- The visits of `detectPII`.
unfoldable pub email_visit : (Bytes → Bytes) → Bytes → ℤ → ℤ → Option Candidate
unfolding is_email_boundary is_in_ssh_command_context is_documentation_email
email_visit to_lower text start stop =
    if is_remote_path text (pos_part stop)
    then none
    else if not (is_email_boundary text start)
        || is_in_ssh_command_context text start
        || is_documentation_email to_lower (sub_text text start stop)
    then none
    else candidate_of email (codes "pii.email") start stop

unfoldable pub phone_visit : Bytes → ℤ → ℤ → Option Candidate
unfolding digit_bounded
phone_visit text start stop =
    if digit_bounded text start stop
    then candidate_of phone (codes "pii.phone-cn") start stop
    else none

unfoldable pub id_card_visit : Bytes → ℤ → ℤ → Option Candidate
unfolding digit_bounded
id_card_visit text start stop =
    if digit_bounded text start stop
    then candidate_of id_card (codes "pii.id-card-cn") start stop
    else none

unfoldable pub ip_visit : Bytes → ℤ → ℤ → Option Candidate
unfolding ip_bounded is_non_public_ipv4
ip_visit text start stop =
    if not (ip_bounded text start stop) || is_non_public_ipv4 (sub_text text start stop)
    then none
    else candidate_of ip (codes "pii.ipv4") start stop

unfoldable pub bank_card_visit : Bytes → ℤ → ℤ → Option Candidate
unfolding digit_bounded has_payment_card_prefix luhn_valid is_example_bank_card
bank_card_visit text start stop =
    let number = sub_text text start stop in
    if not (digit_bounded text start stop)
      || not (has_payment_card_prefix number)
      || not (luhn_valid number)
      || is_example_bank_card number
    then none
    else candidate_of bank_card (codes "pii.bank-card") start stop

-- The regular expressions of the file.
pub record Patterns : Type 0 where
  pub email_address : Regex
  pub phone_number : Regex
  pub id_number : Regex
  pub bank_number : Regex
  pub ip_address : Regex

module _ (done : ℕ → Bool) where
  -- The loop that looks for a digit, from the byte at `i`: `k` if there is one.
  unfoldable pub with_digit : Scan → ℕ → Bytes → Scan
  unfolding check
  with_digit k i [] = finish
  with_digit k i (c ∷ cs) =
      let rest : Scan = with_digit k (suc i) cs in
      let here : Scan = if is_digit c then k else rest in
      if i % 4096 == 0 then (check done ▷ here) else here

  unfoldable pub numbers : Patterns → Bytes → Scan
  unfolding for_each_match phone_visit id_card_visit ip_visit bank_card_visit
  numbers p text =
      for_each_match done p.phone_number text (phone_visit text)
      ▷ for_each_match done p.id_number text (id_card_visit text)
      ▷ for_each_match done p.ip_address text (ip_visit text)
      ▷ for_each_match done p.bank_number text (bank_card_visit text)

  unfoldable pub detect_pii : (Bytes → Bytes) → Patterns → Bytes → Scan
  unfolding for_each_match email_visit with_digit numbers
  detect_pii to_lower p text =
      for_each_match done p.email_address text (email_visit to_lower text)
      ▷ with_digit (numbers p text) 0 text
