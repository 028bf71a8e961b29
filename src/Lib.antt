-- ===== src/Lib.antt =====
-- Verification of coreos-baremetal: bootcfg, the service that tells machines that boot over the
-- network which kernel, config and metadata they get.
--
-- The program and how its parts interact. `cmd/bootcfg/main.go` checks its flags and starts an HTTP
-- server (`bootcfg/http`), which machines ask, and if asked to a gRPC server (`bootcfg/rpc`), which
-- administrators use. Both are thin layers over the core (`bootcfg/server`), whose main operations
-- select a group of machines by the labels of a request, and that group's profile. The core keeps
-- everything in a store (`bootcfg/storage`), which is a directory of JSON files and templates
-- (`bootcfg/storage/filestore.go`) whose paths are confined to the directory
-- (`bootcfg/storage/fs.go`). The data and its methods are in `bootcfg/storage/storagepb`. An HTTP
-- response can be asked for as its signature (`bootcfg/sign`).
--
-- Files and the code they model:
--   Prelude, Prelude/*            Boolean tests, lists with native lengths, texts and their order
--   Golang/*                      what the program uses of Go: errors and results, maps (Dict), sort,
--                                 net.ParseMAC and HardwareAddr.String (Mac), path/filepath
--                                 (FilePath), a file system (FileSystem), net/http (Http)
--   Storagepb/Json                the structs of bootcfg/storage/storagepb/storage.pb.go, and
--                                 encoding/json as a record of functions
--   Storagepb/Group, Group/*      bootcfg/storage/storagepb/group.go
--   Storagepb/Profile             bootcfg/storage/storagepb/profile.go
--   Storage/Dir, Dir/*            bootcfg/storage/fs.go
--   Storage/Store, Store/*        bootcfg/storage/storage.go, the interface of a store, and what
--                                 its clients rely on (Keeping), which FileStore/Kept and
--                                 Testfakes/Fixed/Kept fill
--   Storage/FileStore, FileStore/* bootcfg/storage/filestore.go
--   Server, Server/*              bootcfg/server/server.go; its interface is the record Core, which
--                                 Http, Rpc and Cli take; runs of puts are in Runs
--   Http/Context, Http/Handlers   bootcfg/http/context.go, ctxh.go, handlers.go, pixiecore.go
--   Http/Parse, Parse/*           bootcfg/http/parse.go
--   Http/Render                   bootcfg/http/render.go
--   Http/Boot, Boot/*             bootcfg/http/ipxe.go, grub.go
--   Http/Configs, Configs/*       bootcfg/http/generic.go, cloud.go, ignition.go
--   Http/Metadata, Metadata/*     bootcfg/http/metadata.go
--   Http/Routes, Routes/*         bootcfg/http/server.go
--   Sign/Writer, Writer/*         bootcfg/sign/writer.go
--   Sign/Keys                     bootcfg/sign/signer.go
--   Rpc, Rpc/*                    bootcfg/rpc/*.go
--   Client, Client/*              bootcfg/client/client.go
--   Tlsutil                       bootcfg/tlsutil/*.go
--   Testfakes, Testfakes/*        bootcfg/storage/testfakes/*.go
--   Main, Main/*                  cmd/bootcfg/main.go
--   Cli, Cli/*                    bootcfg/cli/*.go, the commands of cmd/bootcmd/main.go; their tree and
--                                 a run of the program are in Commands
--   System, System/*              the commands of bootcmd, the services and the endpoints together
--   Tests/*                       runs at concrete inputs, and the theorems at such inputs
--
-- How the code is modelled. A function keeps its name in snake case. An operation that changes
-- state takes the state and returns the new one with its result; a `(value, error)` pair is
-- `Result`, and an error that is only a value is an `Option Error`. Strings and byte slices are
-- lists of bytes. A Go map is the list of its entries in the order of one iteration. `sort.Sort`
-- is any function that returns a sorted permutation, and an insertion sort is one.
-- `strings.ToLower` and `ToUpper` act on ASCII letters alone. A handler's body is the list of the
-- calls that it makes on its `http.ResponseWriter`, and a panic is `none`. `context.Context`
-- arguments that are only passed on, and logging, are left out.
--
-- An operation of the server runs as one step over the store: that a request reads the directory
-- and its files one by one, while another client writes, is not modelled.
--
-- What is assumed. Third-party packages are records of functions: encoding/json at the types used,
-- text/template, cloudinit, ignition, fuze, openpgp, x509. Laws of them are hypotheses of the
-- theorems that use them, each met by a concrete instance in Tests. A file system obeys the laws of
-- Golang/FileSystem, which rule out links between files and other writers.
--
-- Fuel. Only the loop over PEM blocks in Tlsutil runs on fuel, one more than the bytes of the
-- file; each block that is decoded leaves less, and so the fuel is enough. All else is structural
-- recursion.
--
-- Not modelled: the generated messages and stubs (`bootcfg/rpc/rpcpb`, `bootcfg/server/serverpb`),
-- whose fields are the arguments of the operations; parsing of the command line by flag and cobra,
-- the network, the redirects of paths that are not clean, what `http.ServeContent` makes of a
-- request for a range or on a condition (a parameter), the contents of the static assets, and the
-- layout of what the client prints.
pub mod Prelude
pub mod Golang
pub mod Storagepb
pub mod Storage
pub mod Server
pub mod Http
pub mod Sign
pub mod Rpc
pub mod Client
pub mod Testfakes
pub mod Tlsutil
pub mod Main
pub mod System
pub mod Cli
mod Tests
