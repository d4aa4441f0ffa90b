-- ===== src/Client/Startup/Runs.antt =====
-- A Client's start at a concrete Relay and Exit.
use token_go.Base.{Bytes, text, [], ◌∷◌, some, none, ok, ◌≡◌, refl, arith, lookup, bytes_discrete}
use token_go.LoadBalancer.Samples.{numbers}
use token_go.Identity.Samples.{plain_base64, all_access}
use token_go.Crypto.Samples.{plain_hpke, plain_gcm, plain_http}
use token_go.Crypto.Keys.Stored.{load_public_key_config}
use token_go.Exit.Samples.{echo_http}
use token_go.Exit.Node.{ExitNode, new_exit_node, exit_node}
use token_go.Exit.Node.Samples.{config, key_files}
use token_go.Client.Connection.{ClientState, World, connect}
use token_go.Client.Startup.{Client, discover_and_connect}
use token_go.Client.Startup.Chosen.{discover_and_connect_lem}

abbrev plain_sum : Bytes → Bytes
plain_sum b = b

abbrev exit :
    ExitNode plain_hpke plain_gcm plain_http echo_http plain_base64 plain_sum plain_sum all_access
exit =
    exit_node plain_hpke plain_gcm plain_http echo_http plain_base64 plain_sum plain_sum all_access
      config [] (6 ∷ 2 ∷ []) 9 (6 ∷ 1 ∷ [])

exit_made :
    new_exit_node plain_hpke plain_gcm plain_http echo_http plain_base64 plain_sum plain_sum
      all_access config [] key_files
    ≡ ok exit
unfolding new_exit_node load_public_key_config lookup bytes_discrete
exit_made = refl

abbrev world : World numbers
world = record { discovery = none; dial = λ addr id. some 8; draw = λ n. 0; unit = 1 }

abbrev state : Bytes → ClientState numbers
state addr = record {
  relay_addr = addr;
  current_relay_id = [];
  conn = none;
  selector = record { weights = []; failures = [] };
}

abbrev before : Client numbers plain_hpke plain_sum plain_sum
before = record { state = state (text "r:1"); exit_pub_key_hash = []; ohttp_client = none }

abbrev after : ClientState numbers
after = record (state (text "r:1")) { conn = some 8 }

connected : connect numbers world before.state ≡ (after, ok tt)
unfolding connect
connected = refl

discover_and_connect_lem_example :
    discover_and_connect numbers plain_hpke plain_sum plain_sum world
      (ok (record { pub_key_hash = exit.pub_key_hash; key_config = exit.key_config } ∷ []))
      before
    ≡ (
      record {
        state = after;
        exit_pub_key_hash = exit.pub_key_hash;
        ohttp_client = some (record { key_id = 9; pub_key_raw = 6 ∷ 1 ∷ [] });
      },
      ok tt,
    )
discover_and_connect_lem_example =
    discover_and_connect_lem numbers plain_hpke plain_gcm plain_http echo_http plain_base64
      plain_sum plain_sum all_access world before after [] config [] key_files exit connected
      exit_made (omega arith)
