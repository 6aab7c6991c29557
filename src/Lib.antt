-- ===== src/Lib.antt =====
-- A verification library of isomdl, an implementation of ISO 18013-5 mobile driving licences.
--
-- A reader sends a device an encrypted request for elements of documents. The device decrypts it,
-- asks its holder what may be returned, cuts the permitted elements down to the requested ones,
-- prepares a response with a payload to sign for each document, takes the signatures one by one and
-- encrypts the finished response. The library models that path from the bytes of a request to the
-- bytes of a response, with the keys, codes and containers that it stands on.
--
-- Before that, a device offers an engagement in a QR code, and the reader that scans it derives the
-- keys of the session with it. Before that, an issuer makes the credential that the device keeps: it
-- gives every element a digest id, puts the digests of the items into the signed object and
-- completes it with a signature. The library models both, and what the reader shows of a response.
-- The elements themselves come from JSON: structs whose conversions are derived by the macros of the
-- repository read every field, gather the errors, and write the namespace that is issued.
--
-- The parts, by file (source paths are from the repository's root):
--
-- Device/Filter         `filter_permitted` of src/presentation/device.rs
-- Device/Types          the data of src/presentation/device.rs
-- Device/Prepare        `DeviceSession::prepare_response`: the loop over documents, namespaces and
--                       elements. The body of each loop is a function, and `continue` with an error
--                       is the `err` of `prepare_document`
-- Device/Signing        `PreparedDeviceResponse` and `PreparedDocument::finalize`
-- Device/Manager        `SessionManager`: an operation takes the manager and returns the new one
--                       with its result; `mem::take` leaves `awaiting_request`
-- Device/AgeAttestation `nearest_age_attestation` and the parsing of age_over_NN
-- Device/FromMdoc       `From<Mdoc> for Document` of src/presentation/device.rs
-- Device/Establish      `SessionManagerInit` and `SessionManagerEngaged` of the same file
-- Device/Manager/Phases the protocol that the calls follow, as an abstract machine
-- Device/Manager/Steps  the calls of the manager, which come in any order
-- Device/Manager/Vectors, Device/Manager/Sealed
--                       the messages that the calls encrypt, and the vectors that AES gets for them
-- Namespaces/Alpha2, Namespaces/UnDistinguishingSign
--                       src/definitions/namespaces/org_iso_18013_5_1/{alpha2,
--                       un_distinguishing_sign}.rs; `Namespaces/Arms` is their `match` on literals
-- Namespaces            the other elements of src/definitions/namespaces, a module for each file;
--                       `Dates` is org_iso_18013_5_1/tdate.rs, `OrgIso1801351` its mod.rs, and
--                       `Aamva` is org_iso_18013_5_1_aamva
-- FromJson              src/definitions/traits/from_json.rs
-- Derive                macros/src: what `lib.rs` reads of a field is in `Derive`, what the
--                       generated code does in `Derive/FromJson` and `Derive/ToCbor`
-- Reader                `SessionManager` of src/presentation/reader.rs: `build_request` and
--                       `new_request`; `Reader/Exchange` runs them against the device's manager
-- Reader/Establish      `establish_session`; its `Agreement` runs it against the device
-- Reader/Response, Reader/Json
--                       `handle_response` and `parse_response`
-- Engagement            src/definitions/device_engagement.rs and device_engagement/nfc_options.rs:
--                       `Envelope` is the engagement, `Method` a retrieval method, `Qr` the URI
-- Issuance              src/issuance/mdoc.rs: `Random` draws digest ids, `Items` makes the items,
--                       `Digests` the digests, `Mdoc` and `Builder` the credential
-- Issuance/X5Chain      src/issuance/x5chain.rs
-- Session               src/definitions/session.rs: counters, initialisation vectors, encryption,
--                       and in `Session/Keys` the key agreement
-- CoseKey               src/definitions/device_key/cose_key.rs: keys, their CBOR form, curve points
--                       and in `CoseKey/Jwk` their JWK
-- Documents             the data of src/definitions/{mso,issuer_signed,device_signed,device_request,
--                       device_response,validity_info,device_key/mod}.rs, its number codes and key
--                       authorizations
-- Helpers               src/definitions/helpers/{non_empty_vec,non_empty_map,tag24}.rs
-- Cbor                  the values of serde_cbor that the code builds and matches on
-- Crates                the COSE, time and uuid types that the code passes around
-- Prelude               tests, lists, results, integers, text and `BTreeMap` as a sorted list
-- Examples              the parameters by concrete functions, and runs at small values
--
-- Numbers are natural numbers; the u32 message counter keeps its wrap-around. Text is a list of
-- code points. A `BTreeMap` is the list of its entries by key. `&mut` state is passed and returned. A
-- panic is a value of its own (`Outcome`) where the code can panic.
--
-- Parameters: serde_cbor at the types that are encoded (`Codec`, `Encoders`, `Wire`), AES-256-GCM
-- (`Aead`), the COSE signature builder (`Crates`), and the arrays and points of generic-array and
-- p256 (`Sec1`). A theorem that needs a law of one of them has it as a hypothesis: decryption undoes
-- encryption (`IsAead`), a value is read back from its bytes (`Reads`), a derived conversion reads what
-- the fields' own readers read back (`IsSerde`, `IsRead`), a slice becomes an array exactly at the
-- array's length (`IsGenericArray`). Keys and engagements are written and read by the repository's
-- own conversions to and from CBOR values (`CoseKey.codec`, `Envelope.codec`); for them only the
-- bytes of a value are a parameter, and `IsFormats` asks that these values be read back.
--
-- Further parameters: the random numbers of rand (`Rng`), the hashes of sha2 and the encoders of an
-- issuer (`Hashes`, `Issuer`), certificates (`Certificates`), key agreement (`Ecdh`, with what is
-- documented of it in `IsEcdh`), base64 (`Base64`), derived deserializers (`Serde`, `IsSerde`), the
-- numbers of serde_json (`Inbound`), dates (`Time`, and for the namespaces `Dates` and
-- `DateTimes`, with what is documented of it in `IsCalendar`)
-- and what a JWK says of the use of its key.
--
-- All recursion is on lists and values, but for two loops. A caller that signs every payload
-- (`Device.Manager.Loop.sign_pending`) has a number of turns as its fuel, and as many turns as there
-- are documents to sign are enough. The search for a digest id
-- (`Issuance.Random.generate_digest_id`) has a number of draws, and it ends as soon as a draw gives
-- an id that is not in use; a random source that never gives one would keep the code in its loop.
--
-- Not modelled: `issue_async`, which awaits what `issue` calls, reading certificates from files,
-- the tokens that the derive macros generate (what the generated code does is modelled), the command
-- line and everything that only prints or logs.
pub mod Prelude
pub mod Cbor
pub mod CoseKey
pub mod Crates
pub mod Derive
pub mod Device
pub mod Documents
pub mod Engagement
pub mod Helpers
pub mod Issuance
pub mod Session
pub mod Examples
pub mod FromJson
pub mod Namespaces
pub mod Reader
