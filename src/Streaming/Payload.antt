-- ===== src/Streaming/Payload.antt =====
-- Which lines fit into a notification: the trigger cuts by characters, and NOTIFY counts bytes.
use postgres_pipeline_orches.Common.{
  All-append, ℕ, zero, suc, ◌+◌, ◌*◌, ◌≤◌, ◌<◌, ◌≡◌, ◌≢◌, refl, ap, inl, inr, ◌⊎◌, Bool, true, some,
  [], ◌∷◌, ◌++◌, arith, ltb, leb, length, All, Bool-cases,
}
use postgres_pipeline_orches.Common.Text.{Text, codes}
use postgres_pipeline_orches.Streaming.Logs.{
  JobLog, LogStreamEvent, LogTable, stored, refused, take, cut_line, line_limit, level_limit,
  octet_length, event_of, message_of, insert_log, append_log,
}

length-take : (n : ℕ) (s : Text) → length (take n s) ≤ n
unfolding take
length-take zero s = omega arith
length-take (suc n) [] = omega arith
length-take (suc n) (c ∷ s) = omega (arith, length-take n s)

take_all : (n : ℕ) (s : Text) → length s ≤ n → take n s ≡ s
unfolding take
take_all zero [] h = refl
take_all zero (c ∷ s) h = absurd (omega (arith, h))
take_all (suc n) [] h = refl
take_all (suc n) (c ∷ s) h = ap (λ t. c ∷ t) (take_all n s (omega (arith, h)))

length-append : (s t : Text) → length (s ++ t) ≡ length s + length t
length-append [] t = omega arith
length-append (c ∷ s) t = omega (arith, length-append s t)

cut_short : (line : Text) → length line ≤ line_limit → cut_line line ≡ line
unfolding cut_line
cut_short line h = ground (arith, take_all line_limit line h)

test_long : (n : ℕ) → line_limit < n → ltb line_limit n ≡ true
test_long n h = ground arith

cut_long :
    (line : Text) → line_limit < length line → cut_line line ≡ take line_limit line ++ codes "…"
unfolding cut_line
cut_long line h = rw (test_long (length line) h) refl

short_or_long : (n : ℕ) → (n ≤ line_limit) ⊎ (line_limit < n)
short_or_long n = elim (Bool-cases (leb n line_limit)) [
  | inl t ↦ inl (ground (arith, t))
  | inr t ↦ inr (ground (arith, t))
]

octet_length-append : (s t : Text) → octet_length (s ++ t) ≡ octet_length s + octet_length t
unfolding octet_length
octet_length-append [] t = omega arith
octet_length-append (c ∷ s) t = omega (arith, octet_length-append s t)

-- A character that JSON writes as it is, and one that takes one byte besides.
abbrev pub IsUnescaped : ℕ → Type 0
IsUnescaped c = (32 ≤ c) × ((c ≢ 34) × (c ≢ 92))

abbrev pub IsPlain : ℕ → Type 0
IsPlain c = IsUnescaped c × (c < 128)

take-All : (n : ℕ) (s : Text) → All IsPlain s → All IsUnescaped (take n s)
unfolding take
take-All zero s h = tt
take-All (suc n) [] h = tt
take-All (suc n) (c ∷ s) h = (h.0.0, take-All n s h.1)

octet_length-take_plain : (n : ℕ) (s : Text) → All IsPlain s → octet_length (take n s) ≤ n
unfolding take octet_length
octet_length-take_plain zero s h = omega arith
octet_length-take_plain (suc n) [] h = omega arith
octet_length-take_plain (suc n) (c ∷ s) h = ground (arith, octet_length-take_plain n s h.1)

octet_length_plain : (s : Text) → All IsPlain s → octet_length s ≤ length s
unfolding octet_length
octet_length_plain [] h = omega arith
octet_length_plain (c ∷ s) h = ground (arith, octet_length_plain s h.1)

plain-IsUnescaped : (s : Text) → All IsPlain s → All IsUnescaped s
plain-IsUnescaped [] h = tt
plain-IsUnescaped (c ∷ s) h = (h.0.0, plain-IsUnescaped s h.1)

-- A plain line is cut to text that JSON writes as it is, of at most 7003 bytes.
cut_plain :
    (line : Text)
    → All IsPlain line
    → All IsUnescaped (cut_line line) × (octet_length (cut_line line) ≤ 7003)
unfolding octet_length
cut_plain line h = elim (short_or_long (length line)) [
  | inl l ↦
      rw (cut_short line l) (plain-IsUnescaped line h, omega (arith, octet_length_plain line h, l))
  | inr l ↦ rw (cut_long line l) (
    All-append IsUnescaped (take line_limit line) (codes "…") (take-All line_limit line h)
        (ground arith),
    omega (
      arith,
      octet_length-append (take line_limit line) (codes "…"),
      octet_length-take_plain line_limit line h,
    ),
  )
]

-- A character from U+0800 to U+FFFF, which takes three bytes.
abbrev pub IsWide : ℕ → Type 0
IsWide c = (2048 ≤ c) × (c < 65536)

octet_length-take_wide :
    (n : ℕ) (s : Text) → All IsWide s → n ≤ length s → octet_length (take n s) ≡ 3 * n
unfolding take octet_length
octet_length-take_wide zero s h l = omega arith
octet_length-take_wide (suc n) [] h l = absurd (omega (arith, l))
octet_length-take_wide (suc n) (c ∷ s) h l = ground (arith, octet_length-take_wide n s h.1)

octet_length_wide : (s : Text) → All IsWide s → octet_length s ≡ 3 * length s
unfolding octet_length
octet_length_wide [] h = omega arith
octet_length_wide (c ∷ s) h = ground (arith, octet_length_wide s h.1)

cut_wide :
    (line : Text) → All IsWide line → 2667 ≤ length line → 8001 ≤ octet_length (cut_line line)
cut_wide line h n = elim (short_or_long (length line)) [
  | inl l ↦ rw (cut_short line l) (omega (arith, octet_length_wide line h, n))
  | inr l ↦ rw (cut_long line l) (
      omega (
        arith,
        octet_length-append (take line_limit line) (codes "…"),
        octet_length-take_wide line_limit line h (omega (arith, l)),
      ))
]

module _ (to_json : LogStreamEvent → Text) (known : ℕ → Bool) (id now job_id : ℕ)
    (line level : Text) (logs : LogTable) where
  abbrev new_log : JobLog
  new_log = record { id = id; job_id = job_id; log_line = line; log_level = level; timestamp = now }

  -- Where JSON adds at most 900 bytes to text that needs no escape, with a level of at most 20
  -- characters: a line of printable ASCII with no quote and no backslash, of any length, is stored for
  -- a job that exists, and sent on.
  pub plain_line_stored :
      ((e : LogStreamEvent)
        → length e.log_level ≤ level_limit
        → All IsUnescaped e.log_line
        → octet_length (to_json e) ≤ octet_length e.log_line + 900)
      → known job_id ≡ true
      → length level ≤ level_limit
      → All IsPlain line
      → append_log to_json known id now (some job_id) line level logs ≡ (
        record {
          rows = logs.rows ++ new_log ∷ [];
          sent = logs.sent ++ message_of to_json known new_log ∷ [];
        },
        stored id,
      )
  unfolding append_log insert_log
  plain_line_stored json k n p =
      let (u, b) = cut_plain line p in ground (arith, json (event_of new_log) n u)

  -- Where JSON takes at least the bytes of the line: a line of 2667 or more characters of three bytes
  -- is refused, and nothing of it is stored or sent.
  pub wide_line_refused :
      ((e : LogStreamEvent) → octet_length e.log_line ≤ octet_length (to_json e))
      → All IsWide line
      → 2667 ≤ length line
      → append_log to_json known id now (some job_id) line level logs ≡ (logs, refused)
  unfolding append_log insert_log
  wide_line_refused json w n = ground (arith, json (event_of new_log), cut_wide line w n)
