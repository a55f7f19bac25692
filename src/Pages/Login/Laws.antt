-- ===== src/Pages/Login/Laws.antt =====
-- What a wrong password shows, the first time and the second.
use cloudscale_commerce.Prelude.{◌≡◌, refl, true, false, none, some, [], ◌∷◌, ◌++◌, arith, ◌==◌}
use cloudscale_commerce.Api.Errors.{ApiError}
use cloudscale_commerce.Api.Client.{Request, raw, Client, is_unauthorized, on_error, start_refresh}
use cloudscale_commerce.Pages.Answers.{or_else, response_detail}
use cloudscale_commerce.Pages.Login.{Login, refused, login_error, heard}

-- Nobody is signed in, no refresh runs, and the server answers 401 to two attempts, one after the
-- other: the first shows what the server says. The second is put at the end of the queue, without any
-- effect, where no handler waits for a refresh unless one did before; so the page hears nothing of it,
-- and its button keeps turning.
pub on_error-twice :
    (c : Client) (e f : ApiError) (r q : Request) (s t : Login)
    → c.is_refreshing ≡ false
    → c.auth.refresh_token ≡ none
    → is_unauthorized e ≡ true
    → is_unauthorized f ≡ true
    → r.retry ≡ false
    → q.retry ≡ false
    → let first = on_error e r c in
      let second = on_error f q first.0 in
      (heard r.id first.1 s ≡ record {
        loading = false;
        error = some (or_else (response_detail (raw e)) "Invalid email or password.");
      })
      × (second.0.failed_queue ≡ c.failed_queue ++ q ∷ [])
      × (second.0.refreshing ≡ c.refreshing)
      × (second.1 ≡ [])
      × (heard q.id second.1 t ≡ t)
unfolding on_error start_refresh heard refused login_error
on_error-twice c e f r q s t quiet signed_out wrong_e wrong_f fresh_r fresh_q =
    let same : (r.id == r.id) ≡ true = ground arith in
    rw (wrong_e, wrong_f, fresh_r, fresh_q, quiet, signed_out)
      (rw same refl, refl, refl, refl, refl)
