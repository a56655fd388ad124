-- ===== src/Sql/Parser/Expressions.antt =====
-- sql_parser.cpp: the expressions, from parseOr down to parsePrimary. A method at depth d calls the
-- others at depth d + 1 only after requireNestingAvailable, which refuses at the limit of 128. A
-- method therefore takes the methods of the next depth as an argument, `none` at the limit.
use minidb_cpp.Prelude.{ℕ, zero, suc, Bool, ◌||◌, Option, none, some, if◌then◌else◌}
use minidb_cpp.Prelude.Stateful.{◌>>=◌, ◌>>◌, returns, get_state}
use minidb_cpp.Sql.Token.{
  TokenKind, Token, identifier_kind, integer_kind, minus_kind, string_kind, true_kind, false_kind,
  null_kind, left_paren_kind, right_paren_kind, not_kind, and_kind, or_kind, equal_kind,
  bang_equal_kind, less_greater_kind, less_kind, less_equal_kind, greater_kind, greater_equal_kind,
}
use minidb_cpp.Sql.Ast.{
  Expression, BinaryOperator, equal, not_equal, less, less_equal, greater, greater_equal,
  and_operator, or_operator, identifier_expression, literal_expression, not_expression,
  binary_expression, span_of, with_span,
}
use minidb_cpp.Sql.Parser.{
  Parses, peeks, previous, advance_token, match_kind, consume, fail_here, fail_at, rounds,
  exhausted, same_kind, parse_literal, chained_comparison, close_parenthesis, primary_expected,
  nesting_limit,
}

-- isComparison and comparisonOperator: `none` is no comparison.
unfoldable pub comparison_operator : TokenKind → Option BinaryOperator
comparison_operator equal_kind = some equal
comparison_operator bang_equal_kind = some not_equal
comparison_operator less_greater_kind = some not_equal
comparison_operator less_kind = some less
comparison_operator less_equal_kind = some less_equal
comparison_operator greater_kind = some greater
comparison_operator greater_equal_kind = some greater_equal
comparison_operator _ = none

unfoldable pub make_binary : BinaryOperator → Expression → Expression → Expression
make_binary op left right =
    binary_expression (record { begin = (span_of left).begin; end = (span_of right).end }) op left
      right

-- The methods at one depth.
pub record Level : Type 0 where
  pub parse_negation : Parses Expression
  pub parse_whole : Parses Expression

abbrev begins_literal : TokenKind → Bool
begins_literal kind =
    same_kind kind integer_kind
    || same_kind kind minus_kind
    || same_kind kind string_kind
    || same_kind kind true_kind
    || same_kind kind false_kind
    || same_kind kind null_kind

-- requireNestingAvailable, and the call at the next depth.
unfoldable pub nested_call : Option Level → Token → (Level → Parses Expression) → Parses Expression
nested_call none token call = fail_at token nesting_limit
nested_call (some level) token call = call level

unfoldable pub parse_primary : Option Level → Parses Expression
parse_primary deeper = do
  identifier ← match_kind identifier_kind
  (if identifier then (do t ← previous; returns (identifier_expression t.span t.value)) else (do
    next ← peeks
    (if begins_literal next.kind
        then (do literal ← parse_literal; returns (literal_expression literal.span literal))
        else (do
          parenthesis ← match_kind left_paren_kind
          left_paren ← previous
          (if parenthesis
              then (do
                expression ← nested_call deeper left_paren (λ l. l.parse_whole)
                right_paren ← consume right_paren_kind close_parenthesis
                returns (
                    with_span (record { begin = left_paren.span.begin; end = right_paren.span.end })
                      expression))
              else fail_here primary_expected)))))

unfoldable pub parse_comparison : Option Level → Parses Expression
parse_comparison deeper = do
  left ← parse_primary deeper
  next ← peeks
  elim (comparison_operator next.kind) [
    | none ↦ returns left
    | some op ↦ (do
      advance_token
      right ← parse_primary deeper
      following ← peeks
      elim (comparison_operator following.kind) [
        | none ↦ returns (make_binary op left right)
        | some chained ↦ fail_here chained_comparison
      ])
  ]

unfoldable pub parse_not : Option Level → Parses Expression
parse_not deeper = do
  negated ← match_kind not_kind
  not_token ← previous
  (if negated
      then (do
        operand ← nested_call deeper not_token (λ l. l.parse_negation)
        returns (
            not_expression (record { begin = not_token.span.begin; end = (span_of operand).end })
              operand))
      else parse_comparison deeper)

-- `while (match(kind)) expression = makeBinary(op, std::move(expression), operand(depth));`
unfoldable pub binary_loop :
    ℕ → TokenKind → BinaryOperator → Parses Expression → Expression → Parses Expression
binary_loop zero kind op operand expression = fail_here exhausted
binary_loop (suc fuel) kind op operand expression = do
  found ← match_kind kind
  (if found
      then (do right ← operand; binary_loop fuel kind op operand (make_binary op expression right))
      else returns expression)

unfoldable pub parse_and : Option Level → Parses Expression
parse_and deeper = do
  first ← parse_not deeper
  p ← get_state
  binary_loop (rounds p) and_kind and_operator (parse_not deeper) first

unfoldable pub parse_or : Option Level → Parses Expression
parse_or deeper = do
  first ← parse_and deeper
  p ← get_state
  binary_loop (rounds p) or_kind or_operator (parse_and deeper) first

-- The methods where `left` more levels of nesting are available.
unfoldable pub level_at : ℕ → Level
level_at zero = record { parse_negation = parse_not none; parse_whole = parse_or none }
level_at (suc left) = record {
  parse_negation = parse_not (some (level_at left));
  parse_whole = parse_or (some (level_at left));
}

abbrev pub max_expression_nesting : ℕ
max_expression_nesting = 128

unfoldable pub parse_expression : Parses Expression
parse_expression = (level_at max_expression_nesting).parse_whole
