-- ===== src/Service/Timelines.antt =====
-- internal/service/sessions.go: `wsStore` and `streamStore`, which do what the store of the flows
-- does, but tell nobody of the entries that they give up.
use sniffy.Common.{ℕ, List, Option}
use sniffy.Common.Int.{ℤ}
use sniffy.Common.Bytes.{Text}
use sniffy.Flow.{WsSession, StreamSession}
use sniffy.Service.Sessions.{Store, new_store, put, get, list, clear}

unfoldable pub new_ws_store : ℤ → Store WsSession
unfolding new_store
new_ws_store capacity = new_store 2000 capacity

unfoldable pub put_ws : Store WsSession → WsSession → Store WsSession
unfolding put
put_ws s w = (put s w.id w).0

unfoldable pub get_ws : Store WsSession → Text → Option WsSession
unfolding get
get_ws s id = get s id

unfoldable pub list_ws : Store WsSession → ℤ → ℤ → Option (List WsSession × ℕ)
unfolding list
list_ws s page size = list s page size

unfoldable pub clear_ws : Store WsSession → Store WsSession
unfolding clear
clear_ws s = (clear s).0

unfoldable pub new_stream_store : ℤ → Store StreamSession
unfolding new_store
new_stream_store capacity = new_store 2000 capacity

unfoldable pub put_stream : Store StreamSession → StreamSession → Store StreamSession
unfolding put
put_stream s t = (put s t.id t).0

unfoldable pub get_stream : Store StreamSession → Text → Option StreamSession
unfolding get
get_stream s id = get s id

unfoldable pub list_stream : Store StreamSession → ℤ → ℤ → Option (List StreamSession × ℕ)
unfolding list
list_stream s page size = list s page size

unfoldable pub clear_stream : Store StreamSession → Store StreamSession
unfolding clear
clear_stream s = (clear s).0
