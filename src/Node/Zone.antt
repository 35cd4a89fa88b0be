-- ===== src/Node/Zone.antt =====
-- The zone of the instance, from its metadata service (internal/node/zone.go).
use upcloud_csi.Base.{ℕ, String, str_eq, ◌==◌, if◌then◌else◌}
use upcloud_csi.Go.{Action, wrap, plain, pure, raise, map_error, ◌>>=◌}
use upcloud_csi.Go.Text.{trim_space}

-- An answer of `net/http`: `io.ReadAll` of at most so many bytes of the body, and its `Close`.
pub record Response (S : Type 0) : Type 0 where
  pub status_code : ℕ
  pub read_limited : ℕ → Action S String
  pub close_body : S → S

module _ {S : Type 0} where
  zone_of : Response S → Action S String
  zone_of resp =
      if resp.status_code == 200
      then (do
        body ← map_error wrap (resp.read_limited 64)
        if str_eq (trim_space body) ""
            then raise (plain "instance metadata reported an empty region")
            else pure (trim_space body))
      else raise (plain "instance metadata returned status")

  -- The body is closed however the answer is read.
  closing : Response S → Action S String → Action S String
  closing resp m s = let (r, s') = m s in (r, resp.close_body s')

  unfoldable pub resolve_zone : (String → Action S (Response S)) → String → Action S String
  unfolding zone_of closing
  resolve_zone http_get endpoint = do
    resp ← map_error wrap (http_get endpoint)
    closing resp (zone_of resp)
