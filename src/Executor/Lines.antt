-- ===== src/Executor/Lines.antt =====
-- The log lines of a stream do not depend on how its text is cut into chunks.
use postgres_pipeline_orches.Common.{
  ℕ, ◌≡◌, refl, sym, ap, ◌∙◌, ◌≢◌, inl, inr, List, [], ◌∷◌, ◌++◌, append_assoc, append-nil, arith,
  ◌==◌, All, Bool-cases,
}
use postgres_pipeline_orches.Common.Text.{Text}
use postgres_pipeline_orches.Executor.{
  newline, strip_cr, split_from, split_lines, pop, write, flush, stream_lines,
}

abbrev pub Lacks : ℕ → Text → Type 0
Lacks x = All (λ c. c ≢ x)

-- The chunks as one text.
unfoldable pub joined : List Text → Text
joined [] = []
joined (c ∷ cs) = c ++ joined cs

split_from-ne-nil : (cur s : Text) → split_from cur s ≢ []
unfolding split_from
split_from-ne-nil cur [] h = cc
split_from-ne-nil cur (c ∷ s) h = elim (Bool-cases (c == newline)) [
  | inl e ↦ let q : strip_cr cur ∷ split_from [] s ≡ [] = rw e at h in cc
  | inr e ↦ split_from-ne-nil (cur ++ c ∷ []) s (rw e at h)
]

pop-cons : (p : Text) (ps : List Text) → ps ≢ [] → pop (p ∷ ps) ≡ ((pop ps).0, p ∷ (pop ps).1)
unfolding pop
pop-cons p [] h = absurd (h refl)
pop-cons p (q ∷ ps) h = refl

-- The split goes on from the last part.
split_from-append :
    (cur s t : Text)
    → split_from cur (s ++ t)
      ≡ (pop (split_from cur s)).1 ++ split_from (pop (split_from cur s)).0 t
unfolding split_from
split_from-append cur [] t = unfold pop in refl
split_from-append cur (c ∷ s) t = elim (Bool-cases (c == newline)) [
  | inl e ↦ rw e (
      rw (pop-cons (strip_cr cur) (split_from [] s) (split_from-ne-nil [] s))
        (ap (λ ps. strip_cr cur ∷ ps) (split_from-append [] s t)))
  | inr e ↦ rw e (split_from-append (cur ++ c ∷ []) s t)
]

-- A text with no newline only makes the first part longer.
split_from-Lacks :
    (cur s t : Text) → Lacks newline s → split_from cur (s ++ t) ≡ split_from (cur ++ s) t
unfolding split_from
split_from-Lacks cur [] t h = rw (append-nil cur)
split_from-Lacks cur (c ∷ s) t h =
    ground (arith, split_from-Lacks (cur ++ c ∷ []) s t h.1, append_assoc cur (c ∷ []) s)

Lacks-append : (s t : Text) → Lacks newline s → Lacks newline t → Lacks newline (s ++ t)
Lacks-append [] t h k = k
Lacks-append (c ∷ s) t h k = (h.0, Lacks-append s t h.1 k)

pop-split_from-Lacks : (cur s : Text) → Lacks newline cur → Lacks newline (pop (split_from cur s)).0
unfolding split_from
pop-split_from-Lacks cur [] h = unfold pop in h
pop-split_from-Lacks cur (c ∷ s) h = elim (Bool-cases (c == newline)) [
  | inl e ↦ rw e (
      rw (pop-cons (strip_cr cur) (split_from [] s) (split_from-ne-nil [] s))
        (pop-split_from-Lacks [] s tt))
  | inr e ↦
      rw e (pop-split_from-Lacks (cur ++ c ∷ []) s (Lacks-append cur (c ∷ []) h (ground arith)))
]

-- The parts as lines: the last one only if it is not empty.
abbrev finished : List Text → List Text
finished ps = (pop ps).1 ++ flush (pop ps).0

append-ne-nil : (ps qs : List Text) → qs ≢ [] → ps ++ qs ≢ []
append-ne-nil [] qs h = h
append-ne-nil (p ∷ ps) qs h = λ e. cc

finished-append : (ps qs : List Text) → qs ≢ [] → finished (ps ++ qs) ≡ ps ++ finished qs
finished-append [] qs h = refl
finished-append (p ∷ ps) qs h =
    rw (pop-cons p (ps ++ qs) (append-ne-nil ps qs h)) (ap (λ r. p ∷ r) (finished-append ps qs h))

write_lem :
    (buffer chunk : Text)
    → Lacks newline buffer
    → write buffer chunk ≡ pop (split_from buffer chunk)
unfolding write split_lines
write_lem buffer chunk h = ap pop (split_from-Lacks [] buffer chunk h)

stream_step :
    (buffer chunk : Text) (chunks : List Text)
    → stream_lines buffer (chunk ∷ chunks)
      ≡ (write buffer chunk).1 ++ stream_lines (write buffer chunk).0 chunks
unfolding stream_lines
stream_step buffer chunk chunks = refl

stream_from :
    (buffer : Text) (chunks : List Text)
    → Lacks newline buffer
    → stream_lines buffer chunks ≡ finished (split_from buffer (joined chunks))
unfolding joined
stream_from buffer [] h = unfold stream_lines split_from pop in refl
stream_from buffer (chunk ∷ chunks) h =
    stream_step buffer chunk chunks
    ∙ rw (write_lem buffer chunk h) (
        ap (λ ls. (pop (split_from buffer chunk)).1 ++ ls)
          (stream_from (pop (split_from buffer chunk)).0 chunks
            (pop-split_from-Lacks buffer chunk h))
        ∙ sym (
            finished-append (pop (split_from buffer chunk)).1 _
              (split_from-ne-nil _ (joined chunks)))
        ∙ ap finished (sym (split_from-append buffer chunk (joined chunks))))

-- Any two ways to cut an output into chunks give the same log lines.
pub chunks_irrelevant :
    (chunks chunks' : List Text)
    → joined chunks ≡ joined chunks'
    → stream_lines [] chunks ≡ stream_lines [] chunks'
chunks_irrelevant chunks chunks' e =
    stream_from [] chunks tt ∙ rw e (sym (stream_from [] chunks' tt))

-- The text that prints each line with a newline behind it.
unfoldable pub printed : List Text → Text
printed [] = []
printed (l ∷ ls) = l ++ newline ∷ printed ls

-- The last unit is no carriage return.
abbrev pub IsClean : Text → Type 0
IsClean l = Lacks newline l × (strip_cr l ≡ l)

-- What a process writes to one of its pipes, as its chunks.
unfoldable pub whole : List (List ℕ) → List ℕ
whole [] = []
whole (buf ∷ bufs) = buf ++ whole bufs
