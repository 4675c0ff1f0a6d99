-- ===== src/Client/Requests.antt =====
-- client/Client: the lines that become requests.
use kvjet.Prelude.{Bool, true, false, ◌∷◌, ◌++◌, some, Bytes, codes}
use kvjet.Prelude.Words.{IsWord}
use kvjet.Resp.Value.{bulk}
use kvjet.Commands.Replies.{Command, get_key, set_key, del_key, exist_key}

-- The commands of a user, whose values are texts.
pub data Line : Type 0 where
  get_line : Bytes → Line
  set_line : Bytes → Bytes → Line
  del_line : Bytes → Line
  exist_line : Bytes → Line

abbrev pub name : Line → Bytes
name (get_line k) = codes "GET"
name (set_line k v) = codes "SET"
name (del_line k) = codes "DEL"
name (exist_line k) = codes "EXIST"

abbrev pub args : Line → Bytes
args (get_line k) = k
args (set_line k v) = k ++ b' ' ∷ v
args (del_line k) = k
args (exist_line k) = k

abbrev pub typed : Line → Bytes
typed l = name l ++ b' ' ∷ args l

abbrev pub command : Line → Command
command (get_line k) = get_key k
command (set_line k v) = set_key k (bulk (some v))
command (del_line k) = del_key k
command (exist_line k) = exist_key k

abbrev pub key : Line → Bytes
key (get_line k) = k
key (set_line k v) = k
key (del_line k) = k
key (exist_line k) = k

abbrev pub AreWords : Line → Type 0
AreWords (get_line k) = IsWord k
AreWords (set_line k v) = IsWord k × IsWord v
AreWords (del_line k) = IsWord k
AreWords (exist_line k) = IsWord k

abbrev pub changes : Line → Bool
changes (get_line k) = false
changes (set_line k v) = true
changes (del_line k) = true
changes (exist_line k) = false
