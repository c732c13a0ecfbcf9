-- ===== src/Metrics/Queries/Injection.antt =====
-- What the clients of inference-api/src/metrics/metrics.service.ts can put into a query: the options
-- of `getHistory` stand in its text as they are.
use text.Mathlib.TextLemmas.{append_assoc, append-eq-nil_iff}
use inference_stack.Prelude.{
  ℕ, String, ◌≡◌, refl, ◌≢◌, ◌∙◌, sym, ap, false, some, ◌==◌, string_eq, Bool-cases, inl, inr,
  arith,
}
use inference_stack.Metrics.Queries.{
  ◌<>◌, from_clause, to_clause, model_clause, metric_expr, HistoryOptions, history_sql,
}
use inference_stack.Metrics.Queries.Literals.{
  ends_inside, outside, IsPlain, ends_inside-IsPlain, outside-outer, IsClosed, IsClosed-append,
  outside-closed,
}
use inference_stack.Metrics.Queries.Clauses.{
  IsPlainOption, quoted-IsClosed, outside-quoted, from_clause-IsClosed, to_clause-IsClosed,
  metric_expr-IsClosed, head, tail, counted, outside-history_text,
}

-- A model name that goes on after a quote.
abbrev pub with_condition : String → String → String
with_condition model condition = model <> ("' OR " <> (condition <> " OR '1' = '0"))

quote-ne : (m rest : String) → (m <> ("' OR " <> rest)) == "" ≡ false
quote-ne m rest = elim (Bool-cases ((m <> ("' OR " <> rest)) == "")) [
  | inr other ↦ other
  | inl empty ↦
      let (first, second) =
        append-eq-nil_iff.0 ((string_eq.beq_iff (m <> ("' OR " <> rest)) "").0 empty) in
      cc ((string_eq.beq_iff "' OR " "").1 (append-eq-nil_iff.0 second).0)
]

regroup :
    (a m q o c z e : String)
    → a <> ((m <> ((q <> o) <> (c <> z))) <> e) ≡ (a <> (m <> q)) <> (o <> (c <> (z <> e)))
regroup a m q o c z e = simp append_assoc

-- The rest of a model name after the quote is a text of its own.
model_clause-with_condition :
    (model condition : String)
    → model_clause (some (with_condition model condition))
      ≡ ("AND model = '" <> model <> "'") <> (" OR " <> (condition <> " OR '1' = '0'"))
unfolding model_clause
model_clause-with_condition model condition =
    rw (quote-ne model (condition <> " OR '1' = '0"))
      (regroup "AND model = '" model "'" " OR " condition " OR '1' = '0" "'")

-- A clause shows a text outside its literals.
record Shows (shown clause : String) : Type 0 where
  closed : IsClosed clause
  is_shown : outside false clause ≡ shown

model_clause-Shows :
    (model : String) → IsPlain model → model ≢ "" → Shows "AND model = " (model_clause (some model))
unfolding model_clause ends_inside outside
model_clause-Shows model h given =
    let other : (model == "") ≡ false = ground (arith, string_eq.beq_iff model "", given) in
    rw other (record {
      closed = quoted-IsClosed "AND model = '" model refl h;
      is_shown = outside-quoted "AND model = '" model refl h;
    })

condition-Shows :
    (model condition : String)
    → IsPlain model
    → IsPlain condition
    → Shows
        ("AND model =  OR " <> (condition <> " OR  = "))
        (model_clause (some (with_condition model condition)))
unfolding ends_inside outside
condition-Shows model condition h k =
    let rest = condition <> " OR '1' = '0'" in
    let plain : IsClosed condition = record { even = ends_inside-IsPlain false condition k } in
    let closed : IsClosed rest = IsClosed-append plain (record { even = refl }) in
    let quoted = quoted-IsClosed "AND model = '" model refl h in
    rw (model_clause-with_condition model condition) (record {
      closed = IsClosed-append quoted (counted " OR " refl closed);
      is_shown =
          outside-closed ("AND model = '" <> model <> "'") (" OR " <> rest) quoted
          ∙ cong2 (outside-quoted "AND model = '" model refl h) (
              outside-closed " OR " rest (record { even = refl })
              ∙ ap (λ r. " OR " <> r)
                  (outside-closed condition " OR '1' = '0'" plain
                    ∙ ap (λ c. c <> " OR  = ") (outside-outer condition k)))
          ∙ sym (append_assoc "AND model = " " OR " (condition <> " OR  = "));
    })
  where
    cong2 : {a b c d : String} → a ≡ b → c ≡ d → a <> c ≡ b <> d
    cong2 e f = cc

-- A query shows what its clause for the model shows, between the same two texts for every clause.
history_sql-Shows :
    (bucket_seconds : ℕ) (opts : HistoryOptions) (model shown : String)
    → IsPlainOption opts.from
    → IsPlainOption opts.to
    → Shows shown (model_clause (some model))
    → outside false (history_sql bucket_seconds (record opts { model = some model }))
      ≡ outside false (
          head bucket_seconds (metric_expr opts.metric) (from_clause opts.from) (to_clause opts.to))
        <> (shown <> tail)
unfolding history_sql
history_sql-Shows bucket_seconds opts model shown from to h =
    outside-history_text bucket_seconds (metric_expr opts.metric) (from_clause opts.from)
      (to_clause opts.to) (model_clause (some model)) (metric_expr-IsClosed opts.metric)
      (from_clause-IsClosed opts.from from) (to_clause-IsClosed opts.to to) h.closed
    ∙ ap
        (λ clause.
          outside false (
            head bucket_seconds (metric_expr opts.metric) (from_clause opts.from)
              (to_clause opts.to))
          <> (clause <> tail))
        h.is_shown

-- What stands outside the quoted literals of the query of `getHistory`: of a model name nothing, but
-- of a model name that goes on after a quote with a condition, that condition, on its own between
-- two `OR`, before the grouping and behind the same text as without it. The condition and what
-- stands before the quote hold no quote and no backslash, nor do the other name, which is not empty,
-- and `from` and `to` where they are given.
pub history_sql-with_condition :
    (bucket_seconds : ℕ) (opts : HistoryOptions) (name model condition : String)
    → IsPlain name
    → name ≢ ""
    → IsPlain model
    → IsPlain condition
    → IsPlainOption opts.from
    → IsPlainOption opts.to
    → (before : String) × (outside false
          (history_sql bucket_seconds (record opts { model = some name }))
        ≡ before <> ("AND model = " <> "\n      GROUP BY ts\n      ORDER BY ts\n    "))
      × (outside false (
            history_sql bucket_seconds
              (record opts { model = some (with_condition model condition) }))
          ≡ before <> "AND model =  OR " <> condition <> " OR  = "
            <> "\n      GROUP BY ts\n      ORDER BY ts\n    ")
history_sql-with_condition bucket_seconds opts name model condition h given k l from to =
    let before =
      outside false (
        head bucket_seconds (metric_expr opts.metric) (from_clause opts.from)
          (to_clause opts.to)) in
    (
      before,
      history_sql-Shows bucket_seconds opts name "AND model = " from to
          (model_clause-Shows name h given),
      history_sql-Shows bucket_seconds opts (with_condition model condition)
            ("AND model =  OR " <> (condition <> " OR  = ")) from to
            (condition-Shows model condition k l)
          ∙ ap (λ shown. before <> shown) (simp append_assoc),
    )
