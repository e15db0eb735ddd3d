-- ===== src/Route/Gin/Registering.antt =====
-- Registering routes one after the other, in parts and from the start.
use kraken_d_operator.Base.{true, List, [], ◌∷◌, ◌++◌, ◌≡◌, Bool-cases, inl, inr, arith}
use kraken_d_operator.Route.Gin.{GinRoute, Gin, refuses, engine_from, register_all}

module _ (gin : Gin) where
  pub register_all-append :
      (e f : gin.Engine) (xs ys : List GinRoute)
      → register_all gin e xs ≡ (f, true)
      → register_all gin e (xs ++ ys) ≡ register_all gin f ys
  unfolding register_all
  register_all-append e f [] ys h = ground arith
  register_all-append e f (r ∷ xs) ys h = elim (Bool-cases (refuses gin e r)) [
    | inl no' ↦ absurd (ground (arith, no'))
    | inr ok' ↦ rw ok' (register_all-append (gin.register e r).0 f xs ys (ground (arith, ok')))
  ]

  -- What gin accepted in turn is what an engine built from the list holds.
  pub engine_with-register_all :
      (e f : gin.Engine) (xs : List GinRoute)
      → register_all gin e xs ≡ (f, true)
      → engine_from gin e xs ≡ f
  unfolding register_all engine_from
  engine_with-register_all e f [] h = ground arith
  engine_with-register_all e f (r ∷ xs) h = elim (Bool-cases (refuses gin e r)) [
    | inl no' ↦ absurd (ground (arith, no'))
    | inr ok' ↦ engine_with-register_all (gin.register e r).0 f xs (ground (arith, ok'))
  ]
