-- ===== src/QuerySubmit/Tests.antt =====
-- Tests of the submission of queries (src/axon_utils/query_submit.rs).
use rusty_dendrite.Prelude.{◌≡◌, refl, Option, none, some, [], ◌∷◌}
use rusty_dendrite.Prelude.Int.{negsuc}
use rusty_dendrite.Io.{ok}
use rusty_dendrite.Messages.{SerializedObject}
use rusty_dendrite.Runtime.{item, end_of_stream}
use rusty_dendrite.QueryProcessor.Output.{QueryResponse}
use rusty_dendrite.QuerySubmit.{QueryServiceClient, submit_query}
use rusty_dendrite.QuerySubmit.Collects.{submit_query_collects}
use rusty_dendrite.Sample.World.{World, sample_runtime}

abbrev empty_world : World
empty_world = record { stored = []; drawn = 0; clock = 7; token = negsuc 0 }

abbrev payload : SerializedObject
payload = record { type = "T"; revision = ""; bytes = 1 ∷ [] }

abbrev response : Option SerializedObject → QueryResponse
response o = record {
  message_identifier = "";
  error_code = "";
  error_message = none;
  payload = o;
  request_identifier = "";
}

abbrev server : QueryServiceClient World
server = record {
  query = λ r s. (
    ok (item (response (some payload)) ∷ item (response (some payload)) ∷ end_of_stream ∷ []),
    s,
  );
}

submit_query_collects_example :
    submit_query sample_runtime server "client" payload empty_world
    ≡ (ok (payload ∷ payload ∷ []), record empty_world { drawn = 1 })
submit_query_collects_example =
    submit_query_collects sample_runtime server "client" payload
      (item (response (some payload)) ∷ item (response (some payload)) ∷ [])
      (payload ∷ payload ∷ []) end_of_stream [] empty_world _ refl (refl, (refl, tt)) tt
