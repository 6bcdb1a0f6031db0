-- ===== src/Server/Streams.antt =====
-- The streaming handler `model_stream_infer` of crates/router/src/server.rs.
use dynamo_router.Base.{ℕ, Bool, true, false, none, List, ◌++◌, if◌then◌else◌, length}
use dynamo_router.Text.{Text, codes}
use dynamo_router.Protocol.{ModelInferRequest, ModelStreamInferResponse}
use dynamo_router.Scheduler.{RouteDecision}
use dynamo_router.Rpc.{Status, Result, ok, err, Packages, fmt_status, is_transport_failure}
use dynamo_router.Task.{
  Stream, ends, yields, closed, broken, mark_unhealthy, call_stream, send, Task, ret, perform,
  ◌>>=◌,
}
use dynamo_router.Server.{pick_replica, record_served, release, request_hashes}

unfoldable pub send_error : Text → Task Bool
send_error message = perform (send (ok (record { error_message = message; infer_response = none })))

-- The loop over the upstream's chunks, to whether the client is still there.
unfoldable pub forward_chunks : Packages → Stream ModelStreamInferResponse → Task Bool
unfolding send_error
forward_chunks pkg (ends closed) = ret true
forward_chunks pkg (ends (broken status)) = do
  _ ← send_error (codes "upstream: " ++ fmt_status pkg status)
  ret true
forward_chunks pkg (yields chunk rest) = do
  here ← perform (send (ok chunk))
  let go_on = forward_chunks pkg rest
  if here then go_on else ret false

unfoldable pub mark_if_transport : Packages → ℕ → Status → Task (Unit {0})
mark_if_transport pkg replica status =
    if is_transport_failure pkg status then perform (mark_unhealthy replica) else ret tt

-- The `match` on the result of the upstream call.
unfoldable pub forward : Packages → ℕ → Result (Stream ModelStreamInferResponse) → Task Bool
forward pkg replica (ok chunks) = forward_chunks pkg chunks
forward pkg replica (err status) = do
  _ ← mark_if_transport pkg replica status
  _ ← send_error (codes "upstream connect: " ++ fmt_status pkg status)
  ret true

-- The rest of the loop's body once a replica is picked.
unfoldable pub stream_routed : Packages → ModelInferRequest → ℕ → Result RouteDecision → Task Bool
stream_routed pkg req prompt_blocks (err status) = do
  _ ← send_error (fmt_status pkg status)
  ret true
stream_routed pkg req prompt_blocks (ok d) = do
  _ ← record_served prompt_blocks d
  upstream ← perform (call_stream d.replica req)
  here ← forward pkg d.replica upstream
  _ ← release d.replica
  ret here

-- One request of the client's stream, to whether the loop goes on.
unfoldable pub stream_request : Packages → ModelInferRequest → Result (List ℕ) → Task Bool
stream_request pkg req (err status) = do _ ← send_error (fmt_status pkg status); ret true
stream_request pkg req (ok hashes) = do
  picked ← pick_replica pkg hashes
  stream_routed pkg req (length hashes) picked

-- `while let Some(msg) = client_rx.next().await`
unfoldable pub model_stream_infer : Packages → Stream ModelInferRequest → Task (Unit {0})
unfolding stream_request
model_stream_infer pkg (ends closed) = ret tt
model_stream_infer pkg (ends (broken e)) = do _ ← perform (send (err e)); ret tt
model_stream_infer pkg (yields req rest) = do
  here ← stream_request pkg req (request_hashes pkg req)
  let go_on = model_stream_infer pkg rest
  if here then go_on else ret tt
