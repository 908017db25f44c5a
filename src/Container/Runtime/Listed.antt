-- ===== src/Container/Runtime/Listed.antt =====
-- container_runtime.go: what is known of a container that the API lists.
use mathlib.Core.Option
use systats.Container.Runtime.{
  effective_timeout, ContainerMetadata, ApiContainer, Response, Socket, metadata_of, put_all,
  fetch_container_metadata,
}
use systats.Exec.{Context, with_timeout}
use systats.Go.Outcome.{ok}
use systats.Prelude.Int.{ℤ}
use systats.Prelude.Text.{Text, eqb, eqb_iff}
use systats.Prelude.{◌≡◌, ◌≢◌, refl, ◌∙◌, Option, none, some, List, [], ◌∷◌, arith, if◌then◌else◌}
use systats.Stats.{Dict, lookup, put, lookup-put}

-- The last entry with that ID.
abbrev pub last_listed : Text → List ApiContainer → Option ApiContainer
last_listed id [] = none
last_listed id (c ∷ listed) = elim (last_listed id listed) [
  | none ↦ if eqb c.id id then some c else none
  | some d ↦ some d
]

abbrev or_lookup : Option ApiContainer → Option ContainerMetadata → Option ContainerMetadata
or_lookup none old = old
or_lookup (some c) old = some (metadata_of c)

lookup-put_all :
    (id : Text) (listed : List ApiContainer) (out : Dict ContainerMetadata)
    → lookup id (put_all listed out) ≡ or_lookup (last_listed id listed) (lookup id out)
unfolding put_all
lookup-put_all id [] out = refl
lookup-put_all id (c ∷ listed) out =
    lookup-put_all id listed (put c.id (metadata_of c) out)
    ∙ ground (arith, lookup-put c.id id (metadata_of c) out)

-- Where a socket is configured, and it answers with the status 200 and a body that decodes to a list
-- of entries, the map that is returned holds for each ID what the last entry with it says, and
-- nothing for an ID that no entry has.
pub fetch_container_metadata-lookup :
    (socket : Socket) (ctx : Context) (socket_path : Text) (timeout : ℤ) (resp : Response)
    (listed : List ApiContainer)
    → socket_path ≢ []
    → socket socket_path (with_timeout ctx.deadline (effective_timeout timeout)) ≡ ok resp
    → resp.status_code ≡ 200
    → resp.listed ≡ ok listed
    → (id : Text)
    → (out : Dict ContainerMetadata) × (fetch_container_metadata socket ctx socket_path timeout
        ≡ ok out)
      × (lookup id out ≡ Option.map metadata_of (last_listed id listed))
unfolding fetch_container_metadata lookup
fetch_container_metadata-lookup socket ctx socket_path timeout resp listed ne asked status body id =
    (
      put_all listed [],
      ground (arith, eqb_iff socket_path [], asked, status, body),
      lookup-put_all id listed [] ∙ as_map (last_listed id listed),
    )
  where
    as_map : (c : Option ApiContainer) → or_lookup c none ≡ Option.map metadata_of c
    as_map none = refl
    as_map (some c) = refl
