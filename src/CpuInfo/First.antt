-- ===== src/CpuInfo/First.antt =====
-- `GetNextField` of client/linux/minidump_writer/proc_cpuinfo_reader.h, by what the lines say.
use native_crash2java.Base.{
  ℕ, zero, suc, ◌<◌, ◌≡◌, refl, ◌≢◌, inl, inr, List, [], ◌∷◌, ◌++◌, append_assoc, Option, some,
  length, arith, ap, ◌∙◌, subst, subst⁻¹, All, Option-cases,
}
use native_crash2java.LineReader.Ends.{first_line, first_line-shorter}
use native_crash2java.LineReader.Found.{IsReading}
use native_crash2java.CpuInfo.{
  CpuInfoReader, split_at_colon, skip_spaces, strip_spaces, no_colon, nameless, field, named,
  parsed, get_next_field,
}
use native_crash2java.CpuInfo.Fields.{
  parse, on_parse, on_first, first_field, first_field-step, Parsed-cases, ahead, IsReady,
  IsFirstField, get_next_field-IsFirstField,
}
use native_crash2java.CpuInfo.Meaning.{
  IsField, IsSkipped, FirstField, no_line, skipped, here, IsCut, split_at_colon-none,
  split_at_colon-some, skip_spaces-splits, strip_spaces-splits,
}

named-field :
    (a v name value : List ℕ) → named a v ≡ field name value → (a ≡ name) × (v ≡ value) × (a ≢ [])
named-field [] v name value e = absurd cc
named-field (c ∷ a) v name value e = (cc, cc, λ h. cc)

named-nameless : (a v value : List ℕ) → named a v ≡ nameless value → a ≡ []
named-nameless [] v value e = refl
named-nameless (c ∷ a) v value e = absurd cc

named-no_colon : (a v : List ℕ) → named a v ≢ no_colon
named-no_colon [] v e = cc
named-no_colon (c ∷ a) v e = cc

-- What the two loops leave of a line that is cut at its colon.
cut-IsField :
    (line before behind : List ℕ)
    → IsCut line before behind
    → strip_spaces before ≢ []
    → IsField line (strip_spaces before) (skip_spaces behind)
cut-IsField line before behind (same, free) named =
    let (gap, front, gap_blank, solid) = strip_spaces-splits before in
    let (lead, back, lead_blank, starts) = skip_spaces-splits behind in
    record {
      gap = gap;
      lead = lead;
      splits =
          same
          ∙ ap (λ b. b ++ (b':' ∷ behind)) front
          ∙ append_assoc (strip_spaces before) gap (b':' ∷ behind)
          ∙ ap (λ b. strip_spaces before ++ (gap ++ (b':' ∷ b))) back;
      colon_free = subst (All (λ c. c ≢ b':')) front free;
      gap_blank = gap_blank;
      lead_blank = lead_blank;
      solid_end = elim solid [ inl nothing ↦ absurd (named nothing) | inr ends ↦ ends ];
      solid_start = starts;
    }

parse-IsField : (line name value : List ℕ) → parse line ≡ field name value → IsField line name value
unfolding parsed
parse-IsField line name value e = elim (Option-cases (split_at_colon line)) [
  | inl gone ↦ absurd (let no : no_colon ≡ field name value = simp gone at e in cc)
  | inr (cut, there) ↦
      let e' : named (strip_spaces cut.0) (skip_spaces cut.1) ≡ field name value =
        simp there at e in
      let (front, back, something) =
        named-field (strip_spaces cut.0) (skip_spaces cut.1) name value e' in
      subst (λ n. IsField line n value) front
        (subst (IsField line (strip_spaces cut.0)) back
          (cut-IsField line cut.0 cut.1 (split_at_colon-some line cut.0 cut.1 there) something))
]

parse-no_colon : (line : List ℕ) → parse line ≡ no_colon → IsSkipped line
unfolding parsed
parse-no_colon line e = elim (Option-cases (split_at_colon line)) [
  | inl gone ↦ inl (split_at_colon-none line gone)
  | inr (cut, there) ↦
      absurd (named-no_colon (strip_spaces cut.0) (skip_spaces cut.1) (simp there at e))
]

parse-nameless : (line value : List ℕ) → parse line ≡ nameless value → IsSkipped line
unfolding parsed
parse-nameless line value e = elim (Option-cases (split_at_colon line)) [
  | inl gone ↦ inl (split_at_colon-none line gone)
  | inr (cut, there) ↦
      let nothing : strip_spaces cut.0 ≡ [] =
        named-nameless (strip_spaces cut.0) (skip_spaces cut.1) value (simp there at e) in
      let (same, free) : IsCut line cut.0 cut.1 = split_at_colon-some line cut.0 cut.1 there in
      let (gap, front, blank, solid) = strip_spaces-splits cut.0 in
      inr (
        gap,
        cut.1,
        same ∙ ap (λ b. b ++ (b':' ∷ cut.1)) (front ∙ ap (λ b. b ++ gap) nothing),
        blank,
      )
]

-- The search by lines finds the first field.
first_field-FirstField :
    (n : ℕ) (file : List ℕ) → length file < n → FirstField file (first_field n file)
first_field-FirstField zero file enough = absurd (omega arith)
first_field-FirstField (suc n) file enough = elim (Option-cases (first_line file)) [
  | inl over ↦
      subst⁻¹ (FirstField file) (first_field-step n file ∙ ap (on_first (first_field n)) over)
        (no_line file over)
  | inr ((line, behind), there) ↦
      let shorter : length behind < length file = first_line-shorter file line behind there in
      let step : first_field (suc n) file ≡ on_parse (first_field n) behind (parse line) =
        first_field-step n file ∙ ap (on_first (first_field n)) there in
      let rest : FirstField behind (first_field n behind) =
        first_field-FirstField n behind (omega arith) in
      subst⁻¹ (FirstField file) step (elim (Parsed-cases (parse line)) [
        | inl none_there ↦
            subst⁻¹ (λ p. FirstField file (on_parse (first_field n) behind p)) none_there
              (skipped file line behind (first_field n behind) there
                (parse-no_colon line none_there) rest)
        | inr (inl (v, empty)) ↦
            subst⁻¹ (λ p. FirstField file (on_parse (first_field n) behind p)) empty
              (skipped file line behind (first_field n behind) there (parse-nameless line v empty)
                rest)
        | inr (inr (name, v, it)) ↦
            subst⁻¹ (λ p. FirstField file (on_parse (first_field n) behind p)) it
              (here file line behind name v there (parse-IsField line name v it))
      ])
]

-- `GetNextField` returns the first field of what was not read yet, its value, and the reader behind its
-- line, or false where there is no field before the end of the file or a line that is too long: the name is
-- what stands before the first colon less the blanks behind it, the value what stands after the colon less
-- the blanks before it, and lines without a colon or with blanks only before it are skipped. The line
-- reader is sound, the reads return at least one byte until the end of the file and no more than there is
-- room for, and more rounds than there are bytes are enough.
pub get_next_field-FirstField :
    (read : List ℕ → ℕ → Option ℕ) (rounds : ℕ) (r : CpuInfoReader)
    → IsReading read
    → IsReady r
    → length (ahead r) < rounds
    → (found : Option (List ℕ × List ℕ × List ℕ)) × (name : Option (List ℕ)) × (r' : CpuInfoReader)
      × FirstField (ahead r) found
      × (get_next_field read rounds r ≡ some (name, r'))
      × IsFirstField found name r'
get_next_field-FirstField read rounds r reading s enough =
    let (name, r', e, found) = get_next_field-IsFirstField read reading rounds r s enough in
    (
      first_field rounds (ahead r),
      name,
      r',
      first_field-FirstField rounds (ahead r) enough,
      e,
      found,
    )
