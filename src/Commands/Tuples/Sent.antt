-- ===== src/Commands/Tuples/Sent.antt =====
-- What a command of several inputs has sent when it ends (cmd/tuplespacectl/cmds/tuple).
use tuplespace.Base.{
  ℕ, ◌+◌, ◌≡◌, ◌⊎◌, inl, inr, refl, ap, Option, none, some, List, [], ◌∷◌, ◌++◌, Result, ok, err,
  Option-cases, length, arith,
}
use tuplespace.Client.Requests
use tuplespace.Commands.Outputs.{
  Row, Error, request_failed, row_failed, Session, Finished, print_row, after_answer,
}
use tuplespace.Commands.Tuples.{send_each}

module _ {W P A B : Type 0} (add_row : Row → P → Option P)
    (ask : A → W → Result Requests.Error B × W) (row : ℕ → B → Row) where
  -- Each input, from number `i` on, was sent and after_answer, and has its row, one after the other.
  abbrev pub AllSent : ℕ → List A → Session W P → Session W P → Type 0
  AllSent i [] w w' = w' ≡ w
  AllSent i (x ∷ xs) w w' =
      (b : B) × (server : W) × (rows : P) × (ask x w.server ≡ (ok b, server))
      × (add_row (row i b) w.rows ≡ some rows)
      × AllSent (i + 1) xs (record { server = server; rows = rows }) w'

  -- Why the loop stops at the input of number `i`: no later input was sent.
  abbrev pub Stops : ℕ → A → Session W P → Session W P → Error → Type 0
  Stops i x w w' (request_failed e) = (ask x w.server ≡ (err e, w'.server)) × (w'.rows ≡ w.rows)
  Stops i x w w' row_failed =
      (b : B) × (ask x w.server ≡ (ok b, w'.server))
      × (add_row (row i b) w.rows ≡ none)
      × (w'.rows ≡ w.rows)
  Stops i x w w' _ = ⊥

  abbrev pub Sent : ℕ → List A → Session W P → Finished W P → Type 0
  Sent i xs w (ok u, w') = AllSent i xs w w'
  Sent i xs w (err e, w') =
      (before after : List A) × (x : A) × (m : Session W P) × (j : ℕ) × (j ≡ i + length before)
      × (xs ≡ before ++ x ∷ after)
      × AllSent i before w m
      × Stops j x m w' e

  later :
      (i : ℕ) (x : A) (xs : List A) (w : Session W P) (b : B) (server : W) (rows : P)
      (r : Finished W P)
      → ask x w.server ≡ (ok b, server)
      → add_row (row i b) w.rows ≡ some rows
      → Sent (i + 1) xs (record { server = server; rows = rows }) r
      → Sent i (x ∷ xs) w r
  later i x xs w b server rows (ok u, w') k p h = (b, server, rows, k, p, h)
  later i x xs w b server rows (err e, w') k p (before, after, y, m, j, at_j, split, sent, stops) =
      (
        x ∷ before,
        after,
        y,
        m,
        j,
        omega (arith, at_j),
        ap (◌∷◌ x) split,
        (b, server, rows, k, p, sent),
        stops,
      )

  pair-cases :
      (r : Result Requests.Error B × W)
      → ((b : B) × (server : W) × (r ≡ (ok b, server)))
        ⊎ ((e : Requests.Error) × (server : W) × (r ≡ (err e, server)))
  pair-cases (ok b, server) = inl (b, server, refl)
  pair-cases (err e, server) = inr (e, server, refl)

  -- A command of several inputs that ends without an error has sent each input once, in their order,
  -- with a row for each. One that ends with an error has done so for the inputs before one of them, and
  -- that one failed, by its request or by its row; nothing was sent after it.
  pub send_each-Sent :
      (i : ℕ) (xs : List A) (w : Session W P) → Sent i xs w (send_each add_row ask row i xs w)
  unfolding send_each after_answer print_row
  send_each-Sent i [] w = refl
  send_each-Sent i (x ∷ xs) w = elim (pair-cases (ask x w.server)) [
    | inr (e, server, k) ↦
        rw (k, after_answer) ([], xs, x, w, i, omega arith, refl, refl, (k, refl))
    | inl (b, server, k) ↦ elim (Option-cases (add_row (row i b) w.rows)) [
      | inl p ↦
          rw (k, after_answer)
            (rw (p, print_row) ([], xs, x, w, i, omega arith, refl, refl, (b, k, p, refl)))
      | inr (rows, p) ↦
          rw (k, after_answer)
            (rw (p, print_row)
              (later i x xs w b server rows _ k p
                (send_each-Sent (i + 1) xs (record { server = server; rows = rows }))))
    ]
  ]
