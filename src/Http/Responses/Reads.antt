-- ===== src/Http/Responses/Reads.antt =====
-- What the answer to a read request says (internal/api/httpapi/handlers.go: `handleRead`).
use tuplespace.Base.{
  ◌≡◌, ◌⊎◌, Bool, true, false, ◌||◌, Option, none, some, Text, ℤ, pos, ok, err, ◌>>◌,
}
use tuplespace.Types.{Tuple, Template}
use tuplespace.Match.{Bindings, match}
use tuplespace.Validation
use tuplespace.Validation.{validate_space, validate_template}
use tuplespace.Service.{Error}
use tuplespace.Service.Blocking.{World, NotifierAnswer}
use tuplespace.Service.Blocking.Whole.{answers, is_positive}
use tuplespace.Http.Responses.{read_body, Response}

module _ (ended : Error → Bool) (space : Text) (t : Template) (wait : ℤ)
    (late given_up : Bool) where
  -- 200 with a tuple that matches the accepted template under the bindings, 404 for a wait of 0, 400 for
  -- what the validation refuses, 408 at an end of the wait or of the request, or 500.
  abbrev pub Reported : Response → Type 0
  Reported r =
      ((r.status ≡ 200)
        × ((tuple : Tuple) × (b : Bindings) × (n : Template) × (r.body ≡ read_body (tuple, b))
            × (validate_template t ≡ ok n)
            × (match n tuple ≡ some b)))
      ⊎ (((r.status ≡ 404) × (wait ≡ pos 0))
          ⊎ (((r.status ≡ 400)
                × ((e : Validation.Error) × ((validate_space space >> validate_template t)
                      ≡ err e)))
              ⊎ (((r.status ≡ 408)
                    × ((late ≡ true) ⊎ ((given_up ≡ true) ⊎ ((e : Error) × (ended e ≡ true)))))
                  ⊎ (r.status ≡ 500))))

  -- No response while the read waits, or where it hangs in the notifier.
  abbrev pub Handled : {D : Type 0} → NotifierAnswer → Option (Response × World D) → Type 0
  Handled subscription none =
      ((late || given_up) ≡ false) ⊎ ((answers subscription ≡ false) × (is_positive wait ≡ true))
  Handled subscription (some (r, w)) = Reported r
