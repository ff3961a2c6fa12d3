-- ===== src/Egress/Tests.antt =====
-- The egress theorems at concrete inputs.
use apipi.Base.{◌≡◌, refl, true, false, [], ◌∷◌, none, some, ◌⊎◌, ok, take, length}
use apipi.Egress.Bytes.{Bytes, equal, split, join}
use apipi.Egress.Dns.{
  Question, parse_question, DnsFilter, placeholder_of, is_nodata, answer, forwarded, build_query,
  resolve, answer_question, lower, parse_labels, label_error, cons_label, finish_question,
  encode_labels,
}
use apipi.Egress.Filter.{answer-forwarded}
use apipi.Egress.Reply.{Answers, ignores, resolve-Answers}

-- "Ab.c" is asked for, of type A; only "ab.c" is allowed.
abbrev asked : Bytes
asked =
    7 ∷ 7 ∷ 1 ∷ 0 ∷ 0 ∷ 1 ∷ 0 ∷ 0 ∷ 0 ∷ 0 ∷ 0 ∷ 0 ∷ 2 ∷ 65 ∷ 98 ∷ 1 ∷ 99 ∷ 0 ∷ 0 ∷ 1 ∷ 0 ∷ 1 ∷ []

abbrev strict : DnsFilter
strict = record {
  allow = λ n. equal n (97 ∷ 98 ∷ 46 ∷ 99 ∷ []);
  placeholder = none;
  passthrough = false;
}

abbrev abc : Question
abc = record { name = 97 ∷ 98 ∷ 46 ∷ 99 ∷ []; qtype = 1; qclass = 1; end = 22 }

goes_out : answer strict asked (1 ∷ 2 ∷ []) ≡ forwarded (build_query abc (1 ∷ 2 ∷ [])) abc
unfolding answer parse_question parse_labels label_error cons_label finish_question answer_question
    lower join placeholder_of is_nodata build_query split encode_labels
goes_out = refl

answer-forwarded_example :
    let out = build_query abc (1 ∷ 2 ∷ []) in
    (parse_question asked ≡ ok abc)
    × (strict.allow abc.name ≡ true)
    × (placeholder_of strict abc ≡ none)
    × (is_nodata 1 ≡ false)
    × (abc.qclass ≡ 1)
    × (parse_question out ≡ ok (record abc { end = length out }))
    × (take 2 out ≡ 1 ∷ 2 ∷ [])
answer-forwarded_example =
    answer-forwarded strict asked 1 2 (build_query abc (1 ∷ 2 ∷ [])) abc refl goes_out

resolve-Answers_example :
    let r = resolve strict asked (1 ∷ 2 ∷ []) (none ∷ []) in
    ((ignores asked ≡ true) × (r ≡ none))
    ⊎ ((ignores asked ≡ false) × ((b : Bytes) × (r ≡ some b) × Answers asked b))
resolve-Answers_example = resolve-Answers strict asked (1 ∷ 2 ∷ []) (none ∷ [])
