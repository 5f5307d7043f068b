-- ===== src/Http/Session.antt =====
-- src/http/http_session.cpp: recvRequest and sendResponse. What read answers is a list of the bytes
-- it stores; sizes fit an int, as with the configured buffer.
use cool.Base.{
  ℕ, ◌^◌, Bool, not, ◌&&◌, List, [], ◌∷◌, ◌++◌, Option, ltb, ◌==◌, if◌then◌else◌, length, take,
  replicate,
}
use cool.Base.Text.{Text}
use cool.Http.Message.{HttpRequest, HttpResponse, dump_response}
use cool.Http.Parser.{
  Machine, RequestCall, HttpRequestParser, new_parser, execute, has_error, is_finished,
  content_length,
}
use cool.Stream.{write_fix_size}

-- read: its bytes, of which none is the answer 0, or the answer -1.
pub data Read : Type 0 where
  got : Text → Read
  failed : Read

-- A value, a null pointer after close(), a read that is still to come, and a write of readFixSize
-- behind the end of a string or after a failed read, which its test of a size_t does not see.
pub data Received (A : Type 0) : Type 0 where
  received : A → Received A
  closed : Received A
  waiting : Received A
  fault : Received A

-- The loop that feeds the parser: `kept` is the front of the buffer, of `offset` bytes.
unfoldable pub receive :
    {M : Type 0}
    → Machine M RequestCall
    → ℕ
    → Text
    → HttpRequestParser M
    → List Read
    → Received (Text × HttpRequestParser M × List Read)
receive m buf_size kept p [] = waiting
receive m buf_size kept p (failed ∷ reads) = closed
receive m buf_size kept p (got [] ∷ reads) = closed
receive m buf_size kept p (got (c ∷ bytes) ∷ reads) =
    let (p', rest) = execute m p (kept ++ c ∷ bytes) in
    let again = receive m buf_size rest p' reads in
    if has_error m p'
    then closed
    else (if length rest == buf_size
        then closed
        else (if is_finished m p' then received (rest, p', reads) else again))

-- content_length() as an int64_t, which is positive below 2 ^ 63.
abbrev pub is_positive : ℕ → Bool
is_positive n = ltb 0 n && ltb n (2 ^ 63)

-- readFixSize at the end of the body.
unfoldable pub overrun : List Read → Received HttpRequest
overrun [] = waiting
overrun (got [] ∷ reads) = closed
overrun (got (c ∷ bytes) ∷ reads) = fault
overrun (failed ∷ reads) = fault

-- The body of `size` bytes: resize makes the string that long already, append goes on behind it, and
-- readFixSize stores the rest behind its end.
unfoldable pub take_body : ℕ → Text → List Read → HttpRequest → Received HttpRequest
take_body size kept reads r =
    if not (is_positive size)
    then received r
    else (if ltb (length kept) size
        then overrun reads
        else received (record r { body = replicate size 0 ++ take size kept }))

unfoldable pub recv_request :
    {M : Type 0} → Machine M RequestCall → (Text → Option ℕ) → ℕ → List Read → Received HttpRequest
recv_request m cast buf_size reads = elim (receive m buf_size [] (new_parser m) reads) [
  | received (kept, p, rest) ↦ take_body (content_length cast p) kept rest p.data_
  | closed ↦ closed
  | waiting ↦ waiting
  | fault ↦ fault
]

-- sendResponse, over the write of the stream as in writeFixSize.
unfoldable pub send_response :
    {S : Type 0} → (S → List ℕ → S × ℕ) → ℕ → S → HttpResponse → Option (S × ℕ)
send_response write fuel s rsp = write_fix_size write fuel s (dump_response rsp)
