-- ===== src/Exec/Inbound.antt =====
-- The way in: the input goroutine of ExecContainer (internal/service/resource.go), handleInput and the
-- queue of terminal sizes (internal/data/exec.go).
pub mod Views
pub mod Delivered
use run_all_resource.Prelude.{
  ℕ, Bool, true, false, Option, none, some, List, [], ◌∷◌, ◌++◌, leb, if◌then◌else◌, take, drop,
}
use run_all_resource.Go.{Result, ok, err}
use run_all_resource.Go.Channel.{
  Turn, moved, blocked, map_turn, Channel, make_channel, send, Received, item, ended, nothing,
  receive, close,
}
use run_all_resource.Biz.Types.{ExecInput, exec_input_stdin, exec_input_resize}
use run_all_resource.Service.Exec.{ExecRequest, input_of}
use run_all_resource.Data.Exec.{TerminalSize, size_of}

-- `make(chan …, 10)`
abbrev pub capacity : ℕ
capacity = 10

-- The input goroutine: in `stream.Recv`, sending on `inputChan`, or returned.
pub data Reader : Type 0 where
  receiving : Reader
  sending : ExecInput → Reader
  left : Reader

-- handleInput: not started, at the head of its loop, in `writer.Write` with the bytes still to be read,
-- sending a size, or returned, with what a failed write left.
pub data Handler : Type 0 where
  unstarted listening : Handler
  writing : List ℕ → Handler
  resizing : TerminalSize → Handler
  stopped : List ℕ → Handler

-- `requests` is what Recv has returned since the session began, `stdin` what the command has read, and
-- `sizes` what Next has returned.
pub record Inbound : Type 0 where
  pub requests : List ExecRequest
  pub reader : Reader
  pub inputs : Channel ExecInput
  pub handler : Handler
  pub stdin : List ℕ
  pub writer_closed : Bool
  pub size_queue : Channel TerminalSize
  pub sizes : List TerminalSize

abbrev pub new_inbound : Inbound
new_inbound = record {
  requests = [];
  reader = receiving;
  inputs = make_channel;
  handler = unstarted;
  stdin = [];
  writer_closed = false;
  size_queue = make_channel;
  sizes = [];
}

-- the `switch` on a request
abbrev pub reader_for : Option ExecInput → Reader
reader_for none = receiving
reader_for (some i) = sending i

-- `stream.Recv()` returns
unfoldable pub recv : Result ExecRequest → Inbound → Turn Inbound
recv answer s = elim s.reader [
  | receiving ↦ elim answer [
    | ok request ↦
        moved (record s {
          requests = s.requests ++ request ∷ [];
          reader = reader_for (input_of request);
        })
    | err e ↦ map_turn (λ c. record s { reader = left; inputs = c }) (close s.inputs)
  ]
  | _ ↦ blocked
]

-- `inputChan <- …`
unfoldable pub push_input : Inbound → Turn Inbound
push_input s = elim s.reader [
  | sending i ↦
      map_turn (λ c. record s { reader = receiving; inputs = c }) (send capacity i s.inputs)
  | _ ↦ blocked
]

-- handleInput is started.
unfoldable pub start_handler : Inbound → Turn Inbound
start_handler s = elim s.handler [
  | unstarted ↦ moved (record s { handler = listening })
  | _ ↦ blocked
]

-- the two deferred calls of handleInput
abbrev pub stop : List ℕ → Inbound → Turn Inbound
stop unread s =
    map_turn (λ q. record s { handler = stopped unread; size_queue = q; writer_closed = true })
      (close s.size_queue)

-- the `switch` of handleInput
unfoldable pub handler_for : ExecInput → Handler
handler_for i = elim i.type [
  | exec_input_stdin ↦ writing i.bytes
  | exec_input_resize ↦ resizing (size_of i)
]

-- `for in := range input`
unfoldable pub take_input : Inbound → Turn Inbound
take_input s = elim s.handler [
  | listening ↦ elim (receive s.inputs) [
    | item i c ↦ moved (record s { handler = handler_for i; inputs = c })
    | ended ↦ stop [] s
    | nothing ↦ blocked
  ]
  | _ ↦ blocked
]

abbrev pub written : List ℕ → Handler
written [] = listening
written (b ∷ bs) = writing (b ∷ bs)

-- The command reads `n` bytes of its standard input: a write to a pipe returns when all is read.
unfoldable pub read_stdin : ℕ → Inbound → Turn Inbound
read_stdin n s = elim s.handler [
  | writing bytes ↦
      moved (record s { stdin = s.stdin ++ take n bytes; handler = written (drop n bytes) })
  | _ ↦ blocked
]

-- `writer.Write` returns an error.
unfoldable pub fail_write : Inbound → Turn Inbound
fail_write s = elim s.handler [ writing bytes ↦ stop bytes s | _ ↦ blocked ]

-- `sizeQueue.resizeChan <- …`
unfoldable pub push_size : Inbound → Turn Inbound
push_size s = elim s.handler [
  | resizing z ↦
      map_turn (λ q. record s { handler = listening; size_queue = q })
        (send capacity z s.size_queue)
  | _ ↦ blocked
]

-- The executor calls Next, which only a terminal has. After the end of the queue it returns nil.
unfoldable pub next_size : Bool → Inbound → Turn Inbound
next_size false s = blocked
next_size true s = elim (receive s.size_queue) [
  | item z q ↦ moved (record s { size_queue = q; sizes = s.sizes ++ z ∷ [] })
  | ended ↦ moved s
  | nothing ↦ blocked
]

pub data InAction : Type 0 where
  recv_request : Result ExecRequest → InAction
  send_input handle_next stdin_fails send_size ask_size : InAction
  stdin_read : ℕ → InAction

unfoldable pub in_act : Bool → InAction → Inbound → Turn Inbound
unfolding recv push_input take_input read_stdin fail_write push_size next_size
in_act tty (recv_request answer) s = recv answer s
in_act tty send_input s = push_input s
in_act tty handle_next s = take_input s
in_act tty (stdin_read n) s = read_stdin n s
in_act tty stdin_fails s = fail_write s
in_act tty send_size s = push_size s
in_act tty ask_size s = next_size tty s
