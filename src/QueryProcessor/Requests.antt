-- ===== src/QueryProcessor/Requests.antt =====
-- What one query gives that reaches its handler (src/axon_utils/query_processor.rs).
use rusty_dendrite.Prelude.{◌≡◌, refl, none, some}
use rusty_dendrite.Io.{ok, err, Error, attempt}
use rusty_dendrite.Messages.{SerializedObject}
use rusty_dendrite.HandlerRegistry
use rusty_dendrite.HandlerRegistry.{TheHandlerRegistry, SubscriptionHandle}
use rusty_dendrite.QueryProcessor.{
  QueryRequest, query, QueryResult, handle_query, handle_request, payload_of,
}

module _ {S Q : Type 0} (query_context : Q)
    (query_handler_registry : TheHandlerRegistry S Q QueryResult) (q : QueryRequest)
    (h : SubscriptionHandle S Q QueryResult) (p : SerializedObject) (s s' : S)
    (found : HandlerRegistry.get query_handler_registry q.query ≡ some h)
    (has : q.payload ≡ some p) where
  pub handle_request-some :
      (payload : SerializedObject)
      → h.handle p.bytes query_context s ≡ (ok (some (record { payload = some payload })), s')
      → handle_request query_context query_handler_registry (some (query q)) s ≡ (
        ok (some (record { message_identifier = q.message_identifier; result = some payload })),
        s',
      )
  unfolding handle_request attempt payload_of handle_query
  handle_request-some payload handled = rw (found, has, handled, handle_query) refl

  pub handle_request-err :
      (e : Error)
      → h.handle p.bytes query_context s ≡ (err e, s')
      → handle_request query_context query_handler_registry (some (query q)) s
        ≡ (ok (some (record { message_identifier = q.message_identifier; result = none })), s')
  unfolding handle_request attempt payload_of handle_query
  handle_request-err e fails = rw (found, has, fails, handle_query) refl
