-- ===== src/Sql/Parser/Whole.antt =====
-- sql_parser.cpp: what parseStatement has read.
use minidb_cpp.Prelude.{
  ℕ, ◌+◌, ◌==◌, ◌⊎◌, Bool, false, subst, ok-injective, arith, ◌≡◌, refl, sym, ◌∙◌, ap, true, Result,
  ok, err, Bool-cases, inl, inr,
}
use minidb_cpp.Prelude.Stateful.{returns, bind-returned}
use minidb_cpp.Sql.Token.{TokenKind, code_of, semicolon_kind, Token, end_of_file_kind}
use minidb_cpp.Sql.Ast.{Statement, StatementNode}
use minidb_cpp.Sql.Parser.{
  Parser, ParserError, peek_token, previous_token, match_kind, same_kind, consume, advance_token,
  end_expected,
}
use minidb_cpp.Sql.Parser.Statements.{
  parse_statement, parse_node, close_statement, end_statement, statement_of,
}

advance-end :
    (p : Parser)
    → same_kind (peek_token p).kind end_of_file_kind ≡ true
    → advance_token p ≡ (p, ok (previous_token p))
unfolding advance_token
advance-end p e = rw e refl

consume-end :
    (p q : Parser) (t : Token)
    → consume end_of_file_kind end_expected p ≡ (q, ok t)
    → (same_kind (peek_token p).kind end_of_file_kind ≡ true) × (q ≡ p)
unfolding consume
consume-end p q t h = elim (Bool-cases (same_kind (peek_token p).kind end_of_file_kind)) [
  | inl e ↦ (
    e,
    sym (ap (λ (r : Parser × Result ParserError Token). r.0) (sym (advance-end p e) ∙ rw e at h)),
  )
  | inr e ↦ absurd (threw (rw e at h))
]
  where
    threw : {x : ParserError} → ◌≡◌ {A = Parser × Result ParserError Token} (p, err x) (q, ok t) → ⊥
    threw c = apart (ap (λ (r : Parser × Result ParserError Token). r.1) c)
      where
        apart : {x : ParserError} → ◌≡◌ {A = Result ParserError Token} (err x) (ok t) → ⊥
        apart c = cc

semicolon_unended :
    (k : TokenKind) → same_kind k semicolon_kind ≡ true → same_kind k end_of_file_kind ≡ false
unfolding code_of
semicolon_unended k h = apart (code_of k) h
  where
    apart : (n : ℕ) → n == 37 ≡ true → n == 0 ≡ false
    apart n e = ground (arith, e)

advance-semicolon :
    (p : Parser)
    → same_kind (peek_token p).kind end_of_file_kind ≡ false
    → (advance_token p).0 ≡ record p { position = p.position + 1 }
unfolding advance_token
advance-semicolon p e = rw e refl

-- `match(TokenKind::Semicolon)` leaves the cursor, or moves it past one semicolon.
match_semicolon :
    (p q : Parser) (b : Bool)
    → match_kind semicolon_kind p ≡ (q, ok b)
    → (q ≡ p)
      ⊎ ((same_kind (peek_token p).kind semicolon_kind ≡ true)
          × (q ≡ record p { position = p.position + 1 }))
unfolding match_kind
match_semicolon p q b h = elim (Bool-cases (same_kind (peek_token p).kind semicolon_kind)) [
  | inl e ↦
      let (u, t, moved, rest) = bind-returned advance_token (λ _. returns true) p q b (rw e at h) in
      let here : u ≡ q = ap (λ (r : Parser × Result ParserError Bool). r.0) rest in
      let there : (advance_token p).0 ≡ u =
        ap (λ (r : Parser × Result ParserError Token). r.0) moved in
      inr (e, sym here ∙ sym there ∙ advance-semicolon p (semicolon_unended (peek_token p).kind e))
  | inr e ↦ inl (sym (ap (λ (r : Parser × Result ParserError Bool). r.0) (rw e at h)))
]

-- A statement is parsed only where the whole input has been read. parse_node has read its node, up to
-- a cursor behind which stands the end of the input, or one semicolon and then the end of the input:
-- the cursor of the result is that cursor, or one token further past that semicolon, and its next token
-- is the end.
pub parse_statement-whole :
    (p q : Parser) (s : Statement)
    → parse_statement p ≡ (q, ok s)
    → (r : Parser) × (parse_node p ≡ (r, ok s.node))
      × ((q ≡ r)
          ⊎ ((same_kind (peek_token r).kind semicolon_kind ≡ true)
              × (q ≡ record r { position = r.position + 1 })))
      × (same_kind (peek_token q).kind end_of_file_kind ≡ true)
unfolding parse_statement close_statement end_statement
parse_statement-whole p q s h =
    let first = peek_token p in
    let (p1, node, e1, h1) = bind-returned parse_node (close_statement first) p q s h in
    let last = previous_token p1 in
    let (p2, semicolon, e2, h2) =
      bind-returned (match_kind semicolon_kind) (end_statement first node last) p1 q s h1 in
    let (p3, t, e3, h3) =
      bind-returned (consume end_of_file_kind end_expected)
        (λ _. returns (statement_of first node last semicolon (previous_token p2))) p2 q s h2 in
    let (ended, same) = consume-end p2 p3 t e3 in
    let here : p2 ≡ q = sym same ∙ ap (λ (r : Parser × Result ParserError Statement). r.0) h3 in
    let made : statement_of first node last semicolon (previous_token p2) ≡ s =
      ok-injective _ s (ap (λ (r : Parser × Result ParserError Statement). r.1) h3) in
    (
      p1,
      subst (λ (n : StatementNode). parse_node p ≡ (p1, ok n)) (ap (λ (x : Statement). x.node) made)
          e1,
      subst
          (λ (x : Parser).
            (x ≡ p1)
            ⊎ ((same_kind (peek_token p1).kind semicolon_kind ≡ true)
                × (x ≡ record p1 { position = p1.position + 1 })))
          here (match_semicolon p1 p2 semicolon e2),
      rw (← here) ended,
    )
