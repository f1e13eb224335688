-- ===== src/CpuInfo/Fields.antt =====
-- The fields of a file, by its lines.
use native_crash2java.Base.{
  ℕ, zero, suc, ◌+◌, ◌≤◌, ◌<◌, ◌≡◌, refl, ◌⊎◌, inl, inr, List, [], ◌∷◌, ◌++◌, Option, none, some,
  ◌==◌, if◌then◌else◌, drop, set, length, arith, ap, sym, ◌∙◌, subst, subst⁻¹, Bool-cases,
  Option-cases,
}
use native_crash2java.LineReader.{LineReader, pop_line, max_line_len}
use native_crash2java.LineReader.Ends.{first_line, first_line-shorter, drop-set}
use native_crash2java.LineReader.Found.{IsReading, IsSound, text, IsFirstLine}
use native_crash2java.LineReader.Next.{get_next_line-IsFirstLine}
use native_crash2java.CpuInfo.{
  CpuInfoReader, split_at_colon, skip_spaces, keep, strip_spaces, Parsed, no_colon, nameless, field,
  named, parsed, popped, hand_out, on_parsed, on_line, get_next_field,
}

-- What a line says.
abbrev pub parse : List ℕ → Parsed
parse line = parsed (split_at_colon line)

abbrev pub on_parse :
    (List ℕ → Option (List ℕ × List ℕ × List ℕ))
    → List ℕ
    → Parsed
    → Option (List ℕ × List ℕ × List ℕ)
on_parse again behind no_colon = again behind
on_parse again behind (nameless v) = again behind
on_parse again behind (field name v) = some (name, v, behind)

abbrev pub on_first :
    (List ℕ → Option (List ℕ × List ℕ × List ℕ))
    → Option (List ℕ × List ℕ)
    → Option (List ℕ × List ℕ × List ℕ)
on_first again none = none
on_first again (some (line, behind)) = on_parse again behind (parse line)

-- The first field of a file within so many lines: its name, its value and what is behind its line.
unfoldable pub first_field : ℕ → List ℕ → Option (List ℕ × List ℕ × List ℕ)
first_field zero file = none
first_field (suc n) file = on_first (first_field n) (first_line file)

-- The text in front of the reader, and that its line reader is sound.
abbrev pub ahead : CpuInfoReader → List ℕ
ahead r = text (popped r.pop_count r.line_reader)

abbrev pub IsReady : CpuInfoReader → Type 0
IsReady r = IsSound (popped r.pop_count r.line_reader)

-- The result is this field, and the reader goes on behind its line.
abbrev pub IsFirstField :
    Option (List ℕ × List ℕ × List ℕ) → Option (List ℕ) → CpuInfoReader → Type 0
IsFirstField none name r = name ≡ none
IsFirstField (some (name', value', behind)) name r =
    (name ≡ some name') × (r.value ≡ value') × IsReady r × (ahead r ≡ behind)

length-strip_spaces : (name : List ℕ) → length (strip_spaces name) ≤ length name
unfolding strip_spaces
length-strip_spaces [] = omega arith
length-strip_spaces (c ∷ name) = kept c name (strip_spaces name) (length-strip_spaces name)
  where
    kept :
        (c : ℕ) (name rest : List ℕ)
        → length rest ≤ length name
        → length (keep c rest) ≤ suc (length name)
    kept c name [] h = ground arith
    kept c name (d ∷ rest) h = omega arith

pair-front :
    (a b c d : List ℕ) → ◌≡◌ {A = Option (List ℕ × List ℕ)} (some (a, b)) (some (c, d)) → a ≡ c
pair-front a b c d e = cc

length-before :
    (line before behind : List ℕ)
    → split_at_colon line ≡ some (before, behind)
    → length before < length line
unfolding split_at_colon
length-before [] before behind e = cc
length-before (c ∷ line) before behind e = elim (Bool-cases (c == b':')) [
  | inl colon ↦
      let none_there : [] ≡ before = pair-front [] line before behind (simp colon at e) in
      subst (λ b. length b < suc (length line)) none_there (omega arith)
  | inr other ↦ elim (Option-cases (split_at_colon line)) [
    | inl gone ↦ absurd (let no : none ≡ some (before, behind) = simp (other, gone) at e in cc)
    | inr (cut, there) ↦
        let l : length cut.0 < length line = length-before line cut.0 cut.1 there in
        let same : (c ∷ cut.0) ≡ before =
          pair-front (c ∷ cut.0) cut.1 before behind (simp (other, there) at e) in
        subst (λ b. length b < suc (length line)) same (omega arith)
  ]
]

-- The name of a field is shorter than its line.
parse-short : (line name value : List ℕ) → parse line ≡ field name value → length name < length line
unfolding parsed
parse-short line name value e = elim (Option-cases (split_at_colon line)) [
  | inl gone ↦ absurd (let no : no_colon ≡ field name value = simp gone at e in cc)
  | inr (cut, there) ↦
      let e' : named (strip_spaces cut.0) (skip_spaces cut.1) ≡ field name value =
        simp there at e in
      let l : length cut.0 < length line = length-before line cut.0 cut.1 there in
      let k : length (strip_spaces cut.0) ≤ length cut.0 = length-strip_spaces cut.0 in
      let same : strip_spaces cut.0 ≡ name =
        named-field (strip_spaces cut.0) (skip_spaces cut.1) name value e' in
      subst (λ b. length b < length line) same (omega arith)
]
  where
    named-field : (a v name value : List ℕ) → named a v ≡ field name value → a ≡ name
    named-field [] v name value e = cc
    named-field (c ∷ a) v name value e = cc

-- The reader behind a field that is handed out.
hand_out-IsFirstField :
    (len : ℕ) (l : LineReader) (name value behind : List ℕ)
    → length name < len
    → IsSound (pop_line len l)
    → text (pop_line len l) ≡ behind
    → IsFirstField
        (some (name, value, behind))
        (hand_out len l name value).0
        (hand_out len l name value).1
unfolding pop_line
hand_out-IsFirstField len l name value behind short s e =
    let same : drop (len + 1) (set l.buf (length name) 0) ≡ drop (len + 1) l.buf =
      drop-set (len + 1) (length name) l.buf 0 (omega arith) in
    (
      refl,
      refl,
      record { bounded = subst⁻¹ (λ b. length b ≤ max_line_len) same s.bounded; ended = s.ended },
      ap (λ b. b ++ l.rest) same ∙ e,
    )

pub Parsed-cases :
    (p : Parsed)
    → (p ≡ no_colon)
      ⊎ ((v : List ℕ) × (p ≡ nameless v))
      ⊎ ((name : List ℕ) × (v : List ℕ) × (p ≡ field name v))
Parsed-cases no_colon = inl refl
Parsed-cases (nameless v) = inr (inl (v, refl))
Parsed-cases (field name v) = inr (inr (name, v, refl))

pub first_field-step :
    (n : ℕ) (file : List ℕ) → first_field (suc n) file ≡ on_first (first_field n) (first_line file)
unfolding first_field
first_field-step n file = refl

module _ (read : List ℕ → ℕ → Option ℕ) (reading : IsReading read) where
  -- What `GetNextField` returns.
  abbrev Returns : ℕ → CpuInfoReader → Option (List ℕ × List ℕ × List ℕ) → Type 0
  Returns rounds r first =
      (name : Option (List ℕ)) × (r' : CpuInfoReader) × (get_next_field read rounds r
        ≡ some (name, r'))
      × IsFirstField first name r'

  -- A line is skipped.
  skip-Returns :
      (rounds : ℕ) (r next : CpuInfoReader) (behind : List ℕ)
      → ahead next ≡ behind
      → get_next_field read (suc rounds) r ≡ get_next_field read rounds next
      → first_field (suc rounds) (ahead r) ≡ first_field rounds behind
      → Returns rounds next (first_field rounds (ahead next))
      → Returns (suc rounds) r (first_field (suc rounds) (ahead r))
  skip-Returns rounds r next behind rest step spec (name, r', e, found) = (
    name,
    r',
    step ∙ e,
    subst⁻¹ (λ x. IsFirstField x name r') (spec ∙ ap (first_field rounds) (sym rest)) found,
  )

  -- `GetNextField` returns the first field of what was not read yet, its value, and the reader behind its
  -- line, or false where there is no field before the end of the file or a line that is too long. Lines
  -- without a colon or without a name before it are skipped. More rounds than there are bytes are enough.
  pub get_next_field-IsFirstField :
      (rounds : ℕ) (r : CpuInfoReader)
      → IsReady r
      → length (ahead r) < rounds
      → (name : Option (List ℕ)) × (r' : CpuInfoReader) × (get_next_field read rounds r
          ≡ some (name, r'))
        × IsFirstField (first_field rounds (ahead r)) name r'
  unfolding get_next_field on_line
  get_next_field-IsFirstField zero r s enough = absurd (omega arith)
  get_next_field-IsFirstField (suc rounds) r s enough =
      let l : LineReader = popped r.pop_count r.line_reader in
      let (len, l', e, found) =
        get_next_line-IsFirstLine read (length l.rest + 2) l reading s (rounds_enough l) in
      elim (Option-cases (first_line (text l))) [
        | inl over ↦
            let at_end : len ≡ none = subst (λ x. IsFirstLine x len l') over found in
            let none_left : first_field (suc rounds) (ahead r) ≡ none =
              first_field-step rounds (ahead r) ∙ ap (on_first (first_field rounds)) over in
            (
              none,
              record { line_reader = l'; pop_count = none; value = r.value },
              ap (on_line (get_next_field read rounds) r.value) (e ∙ ap (λ o. some (o, l')) at_end),
              subst⁻¹
                  (λ x.
                    IsFirstField x none
                      (record { line_reader = l'; pop_count = none; value = r.value }))
                  none_left refl,
            )
        | inr ((line, behind), there) ↦
            let (long, same, s', rest) : IsFirstLine (some (line, behind)) len l' =
              subst (λ x. IsFirstLine x len l') there found in
            let shorter : length behind < length (ahead r) =
              first_line-shorter (ahead r) line behind there in
            let fewer : length (text (pop_line (length line) l')) < rounds =
              subst⁻¹ (λ b. length b < rounds) rest (omega arith) in
            let step : get_next_field read (suc rounds) r
                ≡ on_parsed (get_next_field read rounds) r.value (length line) l' (parse line) =
              ap (on_line (get_next_field read rounds) r.value) (e ∙ ap (λ o. some (o, l')) long)
              ∙ ap (λ b. on_parsed (get_next_field read rounds) r.value (length line) l' (parse b))
                  same in
            let spec : first_field (suc rounds) (ahead r)
                ≡ on_parse (first_field rounds) behind (parse line) =
              first_field-step rounds (ahead r) ∙ ap (on_first (first_field rounds)) there in
            elim (Parsed-cases (parse line)) [
              | inl skipped ↦
                  skip-Returns rounds r
                    (record { line_reader = l'; pop_count = some (length line); value = r.value })
                    behind rest
                    (step
                      ∙ ap (on_parsed (get_next_field read rounds) r.value (length line) l')
                          skipped)
                    (spec ∙ ap (on_parse (first_field rounds) behind) skipped)
                    (get_next_field-IsFirstField rounds
                      (record { line_reader = l'; pop_count = some (length line); value = r.value })
                      s' fewer)
              | inr (inl (v, skipped)) ↦
                  skip-Returns rounds r
                    (record { line_reader = l'; pop_count = some (length line); value = v }) behind
                    rest
                    (step
                      ∙ ap (on_parsed (get_next_field read rounds) r.value (length line) l')
                          skipped)
                    (spec ∙ ap (on_parse (first_field rounds) behind) skipped)
                    (get_next_field-IsFirstField rounds
                      (record { line_reader = l'; pop_count = some (length line); value = v }) s'
                      fewer)
              | inr (inr (name, v, it)) ↦ (
                (hand_out (length line) l' name v).0,
                (hand_out (length line) l' name v).1,
                step ∙ ap (on_parsed (get_next_field read rounds) r.value (length line) l') it,
                subst⁻¹
                    (λ x.
                      IsFirstField x (hand_out (length line) l' name v).0
                        (hand_out (length line) l' name v).1)
                    (spec ∙ ap (on_parse (first_field rounds) behind) it)
                    (hand_out-IsFirstField (length line) l' name v behind
                      (parse-short line name v it) s' rest),
              )
            ]
      ]
    where
      rounds_enough :
          (l : LineReader) → length l.rest + (if l.hit_eof then 1 else 2) ≤ length l.rest + 2
      rounds_enough l = ground arith
