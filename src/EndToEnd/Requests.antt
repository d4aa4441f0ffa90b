-- ===== src/EndToEnd/Requests.antt =====
-- The way of a request from the Client over the Relay to the Exit, and of its response back.
use token_go.Base.{ℕ, Bytes, [], Option, Bool, ok, ◌≡◌, append-nil, sym, ap, ◌∙◌}
use token_go.Protocol.Input.{Reader, eof}
use token_go.Protocol.{Message, IsValid, encode, decode}
use token_go.Protocol.RoundTrip.{decode-encode}
use token_go.Crypto.Interface.{Hpke, Gcm, Http}
use token_go.Relay.Registry.{Registry}
use token_go.Relay.Server.Stream.{concat}
use token_go.Exit.Handler.{HttpLib, OhttpHandler}
use token_go.Exit.Tunnel.{Format, handle_incoming_stream}

-- A stream whose bytes are all there, and that was closed behind them.
abbrev pub closed_after : Bytes → Reader
closed_after bytes = record { pending = bytes; ending = eof }

pub decode_whole :
    (m : Message) → IsValid m → decode (closed_after (encode m)) ≡ ok (m, closed_after [])
decode_whole m v =
    ap (λ t. decode (closed_after t)) (sym (append-nil (encode m))) ∙ decode-encode m [] eof v

module _ (h : Hpke) (g : Gcm) (w : Http) (lib : HttpLib w) (fmt : Format) where
  -- What a Relay can read of the Exit's answer to a frame.
  abbrev pub exit_reply : OhttpHandler h g w lib → (ℕ → Option Bytes) → (ℕ → Bool) → Bytes → Reader
  exit_reply s random accepts frame =
      closed_after
        (concat (handle_incoming_stream h g w lib fmt s random accepts (closed_after frame)))
