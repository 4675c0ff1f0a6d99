-- ===== src/Tests/Client.antt =====
-- Lines that a user types, and answers.
use kvjet.Prelude.{true, codes, ◌≡◌}
use kvjet.Resp.Value.{error}
use kvjet.Resp.Encoder.{encode}
use kvjet.Client.{is_moved_response}
use kvjet.Client.Moved.{is_redirection, is_moved_response-encode}
use kvjet.Client.Requests.{Line, set_line}
use kvjet.Handler.{moved}
use kvjet.Tests.Server.{server}

abbrev typed_set : Line
typed_set = set_line (codes "k") (codes "5")

is_moved_response-encode_example :
    (is_moved_response (encode (error (codes "LOADING")))
      ≡ is_redirection (error (codes "LOADING")))
    × (is_moved_response (moved 9 server.cluster) ≡ true)
is_moved_response-encode_example =
    is_moved_response-encode (error (codes "LOADING")) 9 server.cluster
