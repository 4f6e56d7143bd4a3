-- ===== src/Client/Dispatch/Fanout.antt =====
-- What `process_frame` tells which listeners (internals.rs).
use mip_clients.Common.{
  ℕ, ◌≡◌, ◌∙◌, refl, ap, sym, Bytes, List, [], ◌∷◌, ◌++◌, map, Option, none, some, append-nil,
  append_assoc,
}
use mip_clients.Utf8.{from_utf8_lossy}
use mip_clients.Protocol.{Header, FrameType}
use mip_clients.Client.Types.{MipMessage, MipError}
use mip_clients.Client.Events.{Callback, Callbacks, Call, emit_error}
use mip_clients.Client.Message.{parse_message}
use mip_clients.Client.Dispatch.{process_frame, dispatch, emit_message}

-- A thing to be told, whoever listens.
pub data Notice : Type 0 where
  frame : Header → Bytes → Notice
  event : MipMessage → Notice
  message : MipMessage → Notice
  ack : ℕ → Notice
  pong : Notice
  error : MipError → Notice

-- Each notice goes to every callback of its list, in the order of registration.
abbrev pub tell : Callbacks → Notice → List Call
tell cbs (Notice.frame h p) = map (Call.frame h p) cbs.on_frame
tell cbs (Notice.event m) = map (Call.event m) cbs.on_event
tell cbs (Notice.message m) = map (Call.message m) cbs.on_message
tell cbs (Notice.ack id) = map (Call.ack id) cbs.on_ack
tell cbs Notice.pong = map Call.pong cbs.on_pong
tell cbs (Notice.error e) = map (Call.error e) cbs.on_error

abbrev pub tell_all : Callbacks → List Notice → List Call
tell_all cbs [] = []
tell_all cbs (n ∷ ns) = tell cbs n ++ tell_all cbs ns

-- The message of a frame, if it has one.
abbrev pub message_of : Header → Bytes → FrameType → Option MipMessage
message_of h p FrameType.event = parse_message h p
message_of h p FrameType.publish = parse_message h p
message_of h p _ = none

abbrev pub told_message : FrameType → Option MipMessage → List Notice
told_message t none = []
told_message FrameType.event (some m) = Notice.event m ∷ Notice.message m ∷ []
told_message _ (some m) = Notice.message m ∷ []

abbrev pub told_signal : Header → Bytes → FrameType → List Notice
told_signal h p FrameType.ack = Notice.ack h.msg_id ∷ []
told_signal h p FrameType.pong = Notice.pong ∷ []
told_signal h p FrameType.error = Notice.error (MipError.server_error (from_utf8_lossy p)) ∷ []
told_signal h p _ = []

-- What a frame of a given type tells: the raw frame, then its message or its signal.
abbrev pub notices : Header → Bytes → FrameType → List Notice
notices h p t = Notice.frame h p ∷ (told_message t (message_of h p t) ++ told_signal h p t)

emit_event :
    (cbs : Callbacks) (h : Header)
    → h.frame_type ≡ FrameType.event
    → (o : Option MipMessage)
    → emit_message cbs h o ≡ tell_all cbs (told_message FrameType.event o ++ [])
unfolding emit_message
emit_event cbs h e none = refl
emit_event cbs h e (some m) = rw (e, append-nil)

emit_publish :
    (cbs : Callbacks) (h : Header)
    → h.frame_type ≡ FrameType.publish
    → (o : Option MipMessage)
    → emit_message cbs h o ≡ tell_all cbs (told_message FrameType.publish o ++ [])
unfolding emit_message
emit_publish cbs h e none = refl
emit_publish cbs h e (some m) = rw (e, append-nil)

dispatch-told :
    (cbs : Callbacks) (h : Header) (p : Bytes) (t : FrameType)
    → h.frame_type ≡ t
    → dispatch t cbs h p ≡ tell_all cbs (told_message t (message_of h p t) ++ told_signal h p t)
unfolding dispatch emit_message emit_error
dispatch-told cbs h p FrameType.event e = emit_event cbs h e (parse_message h p)
dispatch-told cbs h p FrameType.publish e = emit_publish cbs h e (parse_message h p)
dispatch-told cbs h p FrameType.ack e = rw append-nil
dispatch-told cbs h p FrameType.pong e = rw append-nil
dispatch-told cbs h p FrameType.error e = rw append-nil
dispatch-told cbs h p _ e = refl

-- For every frame the calls are those of its notices, in their order: the raw frame for the frame
-- listeners, then an event's message for the event listeners and the message listeners, a published
-- message for the message listeners, an acknowledgement's id, a pong, or an error's text; nothing
-- more for any other type, or for a payload that holds no message.
pub process_frame-tell :
    (h : Header) (p : Bytes) (cbs : Callbacks)
    → process_frame h p cbs ≡ tell_all cbs (notices h p h.frame_type)
unfolding process_frame
process_frame-tell h p cbs =
    ap (λ t. map (Call.frame h p) cbs.on_frame ++ t) (dispatch-told cbs h p h.frame_type refl)

-- The message callbacks that are called, each with its message, in order.
abbrev pub messages : List Call → List (Callback × MipMessage)
messages [] = []
messages (Call.message m f ∷ calls) = (f, m) ∷ messages calls
messages (_ ∷ calls) = messages calls

pub messages-append : (xs ys : List Call) → messages (xs ++ ys) ≡ messages xs ++ messages ys
messages-append [] ys = refl
messages-append (Call.message m f ∷ xs) ys = ap (λ t. (f, m) ∷ t) (messages-append xs ys)
messages-append (_ ∷ xs) ys = messages-append xs ys

messages-frame : (h : Header) (p : Bytes) (l : List ℕ) → messages (map (Call.frame h p) l) ≡ []
messages-frame h p [] = refl
messages-frame h p (c ∷ l) = messages-frame h p l

messages-event : (m : MipMessage) (l : List ℕ) → messages (map (Call.event m) l) ≡ []
messages-event m [] = refl
messages-event m (c ∷ l) = messages-event m l

messages-ack : (id : ℕ) (l : List ℕ) → messages (map (Call.ack id) l) ≡ []
messages-ack id [] = refl
messages-ack id (c ∷ l) = messages-ack id l

messages-pong : (l : List ℕ) → messages (map Call.pong l) ≡ []
messages-pong [] = refl
messages-pong (c ∷ l) = messages-pong l

messages-error : (e : MipError) (l : List ℕ) → messages (map (Call.error e) l) ≡ []
messages-error e [] = refl
messages-error e (c ∷ l) = messages-error e l

messages-message :
    (m : MipMessage) (l : List Callback) → messages (map (Call.message m) l) ≡ map (λ f. (f, m)) l
messages-message m [] = refl
messages-message m (f ∷ l) = ap (λ t. (f, m) ∷ t) (messages-message m l)

-- A message goes to every message callback.
abbrev pub copies : List Callback → Option MipMessage → List (Callback × MipMessage)
copies fs none = []
copies fs (some m) = map (λ f. (f, m)) fs

messages-told :
    (cbs : Callbacks) (t : FrameType) (o : Option MipMessage)
    → messages (tell_all cbs (told_message t o)) ≡ copies cbs.on_message o
messages-told cbs t none = refl
messages-told cbs FrameType.event (some m) =
    simp (append-nil, messages-append, messages-event, messages-message)
messages-told cbs _ (some m) = simp (append-nil, messages-message)

messages-signal :
    (cbs : Callbacks) (h : Header) (p : Bytes) (t : FrameType)
    → messages (tell_all cbs (told_signal h p t)) ≡ []
messages-signal cbs h p FrameType.ack = simp (append-nil, messages-ack)
messages-signal cbs h p FrameType.pong = simp (append-nil, messages-pong)
messages-signal cbs h p FrameType.error = simp (append-nil, messages-error)
messages-signal cbs h p _ = refl

tell_all-append :
    (cbs : Callbacks) (xs ys : List Notice)
    → tell_all cbs (xs ++ ys) ≡ tell_all cbs xs ++ tell_all cbs ys
tell_all-append cbs [] ys = refl
tell_all-append cbs (x ∷ xs) ys =
    ap (λ t. tell cbs x ++ t) (tell_all-append cbs xs ys)
    ∙ sym (append_assoc (tell cbs x) (tell_all cbs xs) (tell_all cbs ys))

-- A frame's message, if it has one, goes to each message callback once, in the order of registration.
pub messages-process_frame :
    (h : Header) (p : Bytes) (cbs : Callbacks)
    → messages (process_frame h p cbs) ≡ copies cbs.on_message (message_of h p h.frame_type)
messages-process_frame h p cbs =
    ap messages (process_frame-tell h p cbs)
    ∙ simp (
      tell_all-append, messages-append, messages-frame, messages-told, messages-signal, append-nil,
    )
