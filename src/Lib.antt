-- ===== src/Lib.antt =====
-- The token plugins of the Sovrin network: sovtoken, a ledger of payments whose unspent outputs
-- (UTXOs) are kept in a cache and in a state trie, and sovtokenfees, which charges fees for
-- transactions of the domain ledger. The node around them is plenum and indy.
--
-- A request passes the static validation, then the authentication of its signatures, then the
-- dynamic validation, where sums are checked and the fees authorizer decides; then the handler of
-- its type changes the token state and the UTXO cache. The consensus messages of a batch carry the
-- number of fee transactions and the roots of the token ledger.
--
-- The parts, with paths from the repository's root:
--   Text, Text/Decimal, Text/Split, Text/Dict: Python's texts as lists of code points, `str` and
--     `int` of a number, `':'.join` and `split`, and dictionaries with texts as keys.
--   Errors, Errors/Exec: the exceptions of sovtoken/sovtoken/exceptions.py and of the libraries, the
--     results of code that raises, and actions on shared state, in which what was written before an
--     exception stays written.
--   Storage: the interfaces of plenum's key-value store (`KvStore`) and state trie (`TrieState`).
--   Amounts: `UTXOAmounts` of sovtoken/sovtoken/utxo_cache.py, and `Output` of types.py beside it.
--     Amounts/Pairs and its children have the abstract view, a list of pairs of number and amount.
--   Cache: `UTXOCache` of the same file: add_output, spend_output, get_unspent_outputs, sum_inputs.
--   Ledger: the specification: each address's unspent outputs, what receiving, spending and a
--     transfer do to them, what a set of addresses holds (`supply`), when outputs are fresh, and
--     histories of transfers and mints (Ledger/Book).
--   Token: `TokenStaticHelper` of sovtoken/sovtoken/request_handlers/token_utils.py, on the state and
--     the cache together. Token/Simulates has the rules by which actions follow the specification,
--     Token/Agreement those by which the state and the cache stay in agreement, Token/Writes those by
--     which they keep what each write keeps.
--   Xfer: update_state and dynamic_validation of the handlers of
--     sovtoken/sovtoken/request_handlers/write_request_handler (xfer_handler.py,
--     xfer_handler_1_0_0.py, mint_handler.py). Xfer/Signatures has `_req_to_txn`.
--   Proofs: the proofs of the state that replies carry, from plenum's serializers and BLS store.
--   Replies: the dictionaries of the read handlers' replies, with the operation's fields put in.
--   GetUtxo: get_result of
--     sovtoken/sovtoken/request_handlers/read_req_handler/get_utxo_handler.py and `SortedItems`;
--     GetUtxo/Reply has the whole reply, GetUtxo/Pages a client that asks for page after page;
--     GetUtxo/SortedItems has the loop over Python's `heapq`; GetUtxo/Exact sets the collection
--     against the specification's ledger, GetUtxo/Total what all the replies show together.
--   History: what transfers, mints and charges of fees do, one after the other, to the token state
--     and the cache, as steps of a node; in Ledger/Book they are turns of the specification, and in
--     History/Shown GET_UTXO reads what they leave.
--   Validation: sovtoken/sovtoken/messages (fields.py, txn_validator.py, validation.py) and the fees
--     field of sovtokenfees/sovtokenfees/messages/fields.py.
--   Authn: the signatures of payments of sovtoken/sovtoken/client_authnr.py, and of fees of
--     sovtokenfees/sovtokenfees/client_authnr.py; Authn/Dispatch has `authenticate` of both and
--     `getVerkey`.
--   Fees/Authorizer: sovtokenfees/sovtokenfees/fees_authorizer.py.
--   Fees/SetFees: domain.py, get_fee_from_state and SET_FEES of sovtokenfees/sovtokenfees; in
--     Fees/SetFees/Legacy the handler of SET_FEES of version 0.9.3.
--   Fees/Messages: the messages of SET_FEES and GET_FEE of messages/fields.py, and the static
--     validation of their handlers; plenum's fields are the interface `Fields`.
--   Fees/Read: the handlers of GET_FEE and GET_FEES, `get_fee_from_state` with a proof, and what the
--     authorizer reads.
--   Fees/AuthRule: the handlers of AUTH_RULE and AUTH_RULES under req_handlers/write_handlers.
--   Fees/ThreePhase: sovtokenfees/sovtokenfees/three_phase_commit_handling.py.
--   Fees/TransferFee, Fees/Catchup, Fees/Domain: xfer_fee_handler.py, fee_txn_handler.py and
--     domain_fee_handler.py under req_handlers/write_handlers, and `BatchFeesTracker` of fees_utils.py.
--   Batch: the batch handlers under req_handlers/batch_handlers and
--     sovtoken/sovtoken/request_handlers/batch_req_handler. `Plenum` is the interface of what they
--     change: the token state and ledger, the tracker of uncommitted batches, and the batches of the
--     store. Batch/Reply is about the reply of a commit; Batch/Laws has what plenum documents of the
--     interface and the agreement of its parts, Batch/Laws/Steps the steps of a node, and
--     Batch/Laws/Charges how a charge of Fees/Domain is one of them.
--   Batch/Wiring: register_trackers and the callbacks of sovtokenfees/sovtokenfees/main.py.
--   Wiring: the write handlers that both main.py register; Wiring/Batches the batch handlers;
--     Wiring/Integrate `integrate_plugin_in_node` of both, on a node whose objects are interfaces
--     (Wiring/Host), with sovtoken/sovtoken/sovtoken_auth_map.py and sovtokenfees_auth_map.py.
--   Version: updateVersion.py.
--   Tests: concrete stores, ledgers and requests.
--
-- State is explicit: a store or trie is a value of its interface, and a function that changes one
-- returns the new one. Functions keep the source's names; private ones lose their underscore. A
-- Python dict is a list of pairs in its order, a set a list without repetitions.
--
-- Numbers: sequence numbers and amounts are natural numbers, which Python does not bound; the
-- difference of two sums is an integer. `str` divides by ten on fuel: one more than the number is
-- given, and each round makes the number smaller, so the fuel is enough for every number. The loop
-- that empties a heap has fuel too: one more than there are outputs, each round taking one out.
--
-- Parameters: the stores, the token ledger's append, the serializer of the config state, base58 and
-- the signature scheme, the base classes of plenum's fields, indy's request validator, and the roots
-- of the ledger and the state. Of the stores only reads after writes are assumed, of the serializer
-- that it reads back what it wrote and writes no empty text.
--
-- Of plenum's batches it is assumed that the tracker and the store keep them in order, that a ledger
-- which drops its last transactions has its earlier root, that a commit wants the root that the
-- ledger then has, and that a batch changes the roots of the token ledger exactly if it has
-- transactions there. plenum's part of a batch of the token ledger itself, and what catch-up writes,
-- are premises of the steps.
--
-- Not modelled: the read handlers that are handed to a node, the constructors of plenum's storages,
-- sovtoken/sovtoken/txn_util.py, which nothing calls, __metadata__.py and setup.py, log lines and the
-- texts of messages. Python's checks of argument types fall away with the types.
pub mod Prelude
pub mod Text
pub mod Errors
pub mod Storage
pub mod Proofs
pub mod Replies
pub mod Amounts
pub mod Cache
pub mod Ledger
pub mod Token
pub mod Xfer
pub mod GetUtxo
pub mod History
pub mod Validation
pub mod Fees
pub mod Authn
pub mod Batch
pub mod Wiring
pub mod Version
mod Tests
