-- ===== src/Metrics/Queries/Clauses.antt =====
-- What the clauses and the query of `getHistory` of inference-api/src/metrics/metrics.service.ts show
-- outside their quoted literals.
use text.Mathlib.TextLemmas.{append_assoc, append-nil}
use inference_stack.Prelude.{
  ℕ, String, ◌≡◌, refl, ◌∙◌, ap, true, false, Option, none, some, ◌==◌, string_eq, Bool-cases, inl,
  inr,
}
use inference_stack.Metrics.Windows.{decimal}
use inference_stack.Metrics.Queries.{◌<>◌, from_clause, to_clause, metric_expr, history_text}
use inference_stack.Metrics.Queries.Literals.{
  ends_inside, outside, IsPlain, ends_inside-append, outside-append, ends_inside-IsPlain,
  outside-inner, decimal-append, IsPlain-decimal, IsClosed, IsClosed-append, outside-closed,
}

-- An option that is absent or has no quote and no backslash.
unfoldable pub IsPlainOption : Option String → Type 0
IsPlainOption none = Unit
IsPlainOption (some text) = IsPlain text

-- A plain text between quotes.
pub quoted-IsClosed :
    (lead t : String) → ends_inside false lead ≡ true → IsPlain t → IsClosed (lead <> t <> "'")
quoted-IsClosed lead t h k = record {
  even =
      ends_inside-append false lead (t <> "'")
      ∙ ap (λ b. ends_inside b (t <> "'")) h
      ∙ ends_inside-append true t "'"
      ∙ ap (λ b. ends_inside b "'") (ends_inside-IsPlain true t k)
      ∙ (unfold ends_inside in refl);
}

pub outside-quoted :
    (lead t : String)
    → ends_inside false lead ≡ true
    → IsPlain t
    → outside false (lead <> t <> "'") ≡ outside false lead
unfolding outside
outside-quoted lead t h k =
    outside-append false lead (t <> "'")
    ∙ ap (λ b. outside false lead <> outside b (t <> "'")) h
    ∙ ap (λ rest. outside false lead <> rest)
        (outside-append true t "'"
          ∙ ap (λ b. outside true t <> outside b "'") (ends_inside-IsPlain true t k)
          ∙ ap (λ front. front <> outside true "'") (outside-inner t k))
    ∙ append-nil (outside false lead)

pub from_clause-IsClosed : (o : Option String) → IsPlainOption o → IsClosed (from_clause o)
unfolding from_clause IsPlainOption ends_inside
from_clause-IsClosed none h = record { even = refl }
from_clause-IsClosed (some t) h = elim (Bool-cases (t == "")) [
  | inl empty ↦ rw empty (record { even = refl })
  | inr given ↦ rw given (quoted-IsClosed "AND timestamp >= '" t refl h)
]

pub to_clause-IsClosed : (o : Option String) → IsPlainOption o → IsClosed (to_clause o)
unfolding to_clause IsPlainOption ends_inside
to_clause-IsClosed none h = record { even = refl }
to_clause-IsClosed (some t) h = elim (Bool-cases (t == "")) [
  | inl empty ↦ rw empty (record { even = refl })
  | inr given ↦ rw given (quoted-IsClosed "AND timestamp <= '" t refl h)
]

pub metric_expr-IsClosed : (o : Option String) → IsClosed (metric_expr o)
unfolding metric_expr ends_inside
metric_expr-IsClosed none = record { even = refl }
metric_expr-IsClosed (some m) = elim (Bool-cases (m == "prefill_tps")) [
  | inl prefill ↦ rw prefill (record { even = refl })
  | inr a ↦ elim (Bool-cases (m == "latency")) [
    | inl latency ↦ rw (a, latency) (record { even = refl })
    | inr b ↦ elim (Bool-cases (m == "throughput")) [
      | inl throughput ↦ rw (a, b, throughput) (record { even = refl })
      | inr c ↦ rw (a, b, c) (record { even = refl })
    ]
  ]
]

-- The query up to the clause of the model, and behind it.
pub head : ℕ → String → String → String → String
head bucket_seconds metric from to =
    "\n"
    <> "      SELECT\n"
    <> "        toStartOfInterval(timestamp, INTERVAL "
    <> decimal bucket_seconds ""
    <> " SECOND) AS ts,\n"
    <> "        "
    <> metric
    <> " AS val\n"
    <> "      FROM inference_metrics\n"
    <> "      WHERE is_error = false\n"
    <> "        "
    <> from
    <> "\n"
    <> "        "
    <> to
    <> "\n"
    <> "        "

abbrev pub tail : String
tail = "\n" <> "      GROUP BY ts\n" <> "      ORDER BY ts\n" <> "    "

history_text-head :
    (bucket_seconds : ℕ) (metric from to model : String)
    → history_text bucket_seconds metric from to model
      ≡ head bucket_seconds metric from to <> (model <> tail)
unfolding history_text head
history_text-head bucket_seconds metric from to model =
    rw
      (decimal-append bucket_seconds (
        " SECOND) AS ts,\n" <> "        " <> metric <> " AS val\n"
        <> "      FROM inference_metrics\n" <> "      WHERE is_error = false\n" <> "        "
        <> from <> "\n" <> "        " <> to <> "\n" <> "        " <> model <> tail))
      (simp append_assoc)

-- A text whose quotes are counted, before a closed one.
pub counted :
    (lead : String) {rest : String}
    → ends_inside false lead ≡ false
    → IsClosed rest
    → IsClosed (lead <> rest)
counted lead h k = IsClosed-append (record { even = h }) k

decimal-IsClosed : (n : ℕ) → IsClosed (decimal n "")
decimal-IsClosed n = record { even = ends_inside-IsPlain false (decimal n "") (IsPlain-decimal n) }

head-IsClosed :
    (bucket_seconds : ℕ) (metric from to : String)
    → IsClosed metric
    → IsClosed from
    → IsClosed to
    → IsClosed (head bucket_seconds metric from to)
unfolding head ends_inside
head-IsClosed bucket_seconds metric from to h k l =
    let end : IsClosed ("\n" <> "        ") = record { even = refl } in
    let dates =
      counted "        " refl
        (IsClosed-append k (counted "\n" refl (counted "        " refl (IsClosed-append l end)))) in
    let table =
      counted "      FROM inference_metrics\n" refl
        (counted "      WHERE is_error = false\n" refl dates) in
    let value =
      counted " SECOND) AS ts,\n" refl
        (counted "        " refl (IsClosed-append h (counted " AS val\n" refl table))) in
    counted "\n" refl (
      counted "      SELECT\n" refl (
        counted "        toStartOfInterval(timestamp, INTERVAL " refl
          (IsClosed-append (decimal-IsClosed bucket_seconds) value)))

-- What stands outside the literals of a query is what stands there up to the clause of the model,
-- in a closed clause, and behind it.
pub outside-history_text :
    (bucket_seconds : ℕ) (metric from to model : String)
    → IsClosed metric
    → IsClosed from
    → IsClosed to
    → IsClosed model
    → outside false (history_text bucket_seconds metric from to model)
      ≡ outside false (head bucket_seconds metric from to) <> (outside false model <> tail)
outside-history_text bucket_seconds metric from to model h k l m =
    ap (outside false) (history_text-head bucket_seconds metric from to model)
    ∙ outside-closed (head bucket_seconds metric from to) (model <> tail)
        (head-IsClosed bucket_seconds metric from to h k l)
    ∙ ap (λ rest. outside false (head bucket_seconds metric from to) <> rest)
        (outside-closed model tail m
          ∙ ap (λ rest. outside false model <> rest) (unfold outside in refl))
