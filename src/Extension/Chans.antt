-- ===== src/Extension/Chans.antt =====
-- extension/chan.go: a source and a sink that are a channel of the caller's.
use go_streams.Prelude.{List}
use go_streams.Channel.{Chan, Outcome}
use go_streams.Split.{do_stream}

-- `ChanSource`, over what its channel delivers until the caller closes it.
pub record ChanSource (Any : Type 0) : Type 0 where
  pub input : List Any

-- `ChanSink`
pub record ChanSink (Any : Type 0) : Type 0 where
  pub out : Chan Any

-- `NewChanSource`
unfoldable pub new_chan_source : {Any : Type 0} → List Any → ChanSource Any
new_chan_source input = record { input = input }

-- `NewChanSink`
unfoldable pub new_chan_sink : {Any : Type 0} → Chan Any → ChanSink Any
new_chan_sink out = record { out = out }

-- The source's `Via`: what the inlet of the operator has received, when its goroutine has ended.
unfoldable pub via : {Any : Type 0} → ChanSource Any → Chan Any → Outcome (Chan Any)
unfolding do_stream
via source inlet = do_stream source.input inlet
