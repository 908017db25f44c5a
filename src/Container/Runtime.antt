-- ===== src/Container/Runtime.antt =====
-- container_runtime.go: names, images, states and labels from a Docker-compatible API. The HTTP
-- request over the socket and the JSON of its body are parameters.
pub mod Listed
use systats.Config.{default_container_socket_timeout}
use systats.Exec.{Context, with_timeout}
use systats.Go.Outcome.{Outcome, ok, fail, no_container_socket, bad_status, ◌>>=◌}
use systats.Go.Strings.{trim_prefix}
use systats.Prelude.Int.{ℤ, pos, ltb_ℤ}
use systats.Prelude.Text.{Text, codes, eqb}
use systats.Prelude.{
  ℕ, Bool, true, false, not, Option, none, some, List, [], ◌∷◌, ◌==◌, if◌then◌else◌,
}
use systats.Stats.{Dict, put}

pub record ContainerMetadata : Type 0 where
  pub name : Text
  pub image : Text
  pub state : Text
  pub labels : Dict Text

-- An entry of /containers/json.
pub record ApiContainer : Type 0 where
  pub id : Text
  pub names : List Text
  pub image : Text
  pub state : Text
  pub labels : Dict Text

-- http.Response: the status, and what decoding the body as a list of entries gives.
pub record Response : Type 0 where
  pub status_code : ℕ
  pub status : Text
  pub listed : Outcome (List ApiContainer)

-- client.Do(req) over the socket of that path, within that time.
abbrev pub Socket : Type 0
Socket = Text → ℤ → Outcome Response

abbrev pub effective_timeout : ℤ → ℤ
effective_timeout timeout =
    if ltb_ℤ (pos 0) timeout then timeout else default_container_socket_timeout

-- The first name, without the slash before it.
unfoldable pub name_of : List Text → Text
unfolding trim_prefix
name_of [] = []
name_of (name ∷ names) = trim_prefix name (codes "/")

unfoldable pub metadata_of : ApiContainer → ContainerMetadata
unfolding name_of
metadata_of c = record {
  name = name_of c.names;
  image = c.image;
  state = c.state;
  labels = c.labels;
}

-- The loop over the entries, on the map that is made.
unfoldable pub put_all : List ApiContainer → Dict ContainerMetadata → Dict ContainerMetadata
unfolding metadata_of put
put_all [] out = out
put_all (c ∷ listed) out = put_all listed (put c.id (metadata_of c) out)

abbrev pub decoded : Response → Outcome (Dict ContainerMetadata)
unfolding put_all
decoded resp =
    if not (resp.status_code == 200)
    then fail (bad_status resp.status)
    else (do listed ← resp.listed; ok (put_all listed []))

unfoldable pub fetch_container_metadata :
    Socket → Context → Text → ℤ → Outcome (Dict ContainerMetadata)
unfolding with_timeout decoded eqb
fetch_container_metadata socket ctx socket_path timeout =
    if eqb socket_path [] then fail no_container_socket else (do
      resp ← socket socket_path (with_timeout ctx.deadline (effective_timeout timeout))
      decoded resp)
