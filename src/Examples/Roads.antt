-- ===== src/Examples/Roads.antt =====
-- src/handlers/message_handler/connection.rs: two messages in three reads; and
-- src/handlers/message_router_handler: a request and its reply between two workers.
use chapterhouse_qe.Common.{ℕ, ◌≡◌, refl, ◌∷◌, [], List, ◌++◌, true, none, some, map, ok, arith}
use chapterhouse_qe.Messages.Names.{ping}
use chapterhouse_qe.Messages.Payloads.{payloads, of_ping}
use chapterhouse_qe.Messages.Payloads
use chapterhouse_qe.Messages.Bytes.{take, drop, put_uints}
use chapterhouse_qe.Messages.Wire
use chapterhouse_qe.Messages.Wire.{fields}
use chapterhouse_qe.Messages.Message.{Payloads, Message, serialize, to_serialized_msg, to_bytes}
use chapterhouse_qe.Messages.Message.Delivery.{IsSendable}
use chapterhouse_qe.Messages.Router.{MessageRouterState}
use chapterhouse_qe.Messages.Connection.{Connection, async_main}
use chapterhouse_qe.Messages.Connection.Framing.{Frame}
use chapterhouse_qe.Messages.Connection.Reading.{Framed, nothing, frame, arrived, async_main-Framed}
use chapterhouse_qe.Messages.Routing.Replies.{asked, replied, answered}
use chapterhouse_qe.Examples.Wires.{first_byte, big_endian, put_big}
use chapterhouse_qe.Examples.Servers.{codec, some_message, pipe_of}

-- A payload is a number of one byte, with three bytes behind it.
abbrev pub four_bytes : Payloads
four_bytes = record {
  Sendable = ℕ;
  Failure = ℕ;
  msg_name = λ n. ping;
  to_bytes = λ n. ok (n ∷ 0 ∷ 0 ∷ 0 ∷ []);
  build_msg = λ id. some first_byte;
}

abbrev hello : Message four_bytes
hello = record {
  msg_name_id = 0;
  msg_id = 300;
  request_id = 301;
  msg = 77;
  sent_from_worker_id = some 12;
  sent_from_query_id = none;
  sent_from_operation_id = some 13;
  sent_from_connection_id = none;
  route_to_worker_id = none;
  route_to_operation_id = none;
  route_to_connection_id = none;
  inbound_stream_id = none;
  outbound_stream_id = some 3;
  created_on_this_worker = true;
}

hello-IsSendable : IsSendable hello
hello-IsSendable = record {
  msg_name_id = ground arith;
  msg_id = ground arith;
  request_id = ground arith;
  sent_from_worker_id = ground arith;
  sent_from_query_id = tt;
  sent_from_operation_id = ground arith;
  sent_from_connection_id = tt;
  route_to_worker_id = tt;
  route_to_operation_id = tt;
  route_to_connection_id = tt;
}

abbrev pub wire : List ℕ
wire = Wire.to_bytes big_endian (serialize hello (77 ∷ 0 ∷ 0 ∷ 0 ∷ []))

hello-Frame : Frame big_endian hello wire
unfolding to_bytes to_serialized_msg Wire.to_bytes serialize fields put_uints put_big
hello-Frame = record {
  msg_data = 77 ∷ 0 ∷ 0 ∷ 0 ∷ [];
  parser = first_byte;
  sendable = hello-IsSendable;
  bytes = refl;
  four = ground arith;
  short = ground arith;
  found = refl;
  reads = refl;
  sent = refl;
  bounded = ground arith;
}

two-Framed : Framed big_endian (hello ∷ hello ∷ []) (wire ++ (wire ++ []))
two-Framed = frame hello-Frame (frame hello-Frame nothing)

abbrev pub inbound : Connection
inbound = record { stream_id = 9; is_inbound = true }

abbrev read_of : List ℕ → List (ℕ × List ℕ)
read_of [] = []
read_of (b ∷ bs) = (b, bs) ∷ []

-- The first read ends within the first message, the second one within the other.
abbrev three_reads : List (ℕ × List ℕ)
three_reads =
    read_of (take 100 (wire ++ wire))
    ++ (read_of (take 100 (drop 100 (wire ++ wire))) ++ read_of (drop 200 (wire ++ wire)))

async_main-Framed_example :
    async_main big_endian inbound [] three_reads
    ≡ (map (arrived big_endian inbound) (hello ∷ hello ∷ []), ok tt)
unfolding Wire.to_bytes serialize fields put_uints put_big
async_main-Framed_example =
    async_main-Framed big_endian inbound (hello ∷ hello ∷ []) (wire ++ (wire ++ [])) [] three_reads
      two-Framed refl

abbrev known : MessageRouterState (payloads codec)
known = record { external_subscribers = []; internal_subscribers = [] }

abbrev request : Message (payloads codec)
request = some_message (of_ping Payloads.ping)

abbrev arriving : Message (payloads codec)
arriving =
    asked codec 1 2 11 1 1 1 1 (pipe_of 11) (pipe_of 21) inbound inbound request
      (of_ping Payloads.pong)

abbrev returning : Message (payloads codec)
returning =
    replied codec 1 2 11 1 1 1 1 (pipe_of 11) (pipe_of 21) inbound inbound request
      (of_ping Payloads.pong)

abbrev returned : Message (payloads codec)
returned =
    answered codec 1 2 11 1 1 1 1 (pipe_of 11) (pipe_of 21) inbound inbound request
      (of_ping Payloads.pong)
