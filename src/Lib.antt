-- ===== src/Lib.antt =====
-- luwes, checked: the handler layer, the Go side of the C interface for HTTP filters, and the body
-- windows.
--
-- luwes is a Go SDK for Envoy's dynamic modules. Envoy calls the module through the C interface of
-- abi/abi.h; abi_impl turns the calls into calls of the Go interfaces of shared/; sahl builds on
-- these interfaces a handler API for HTTP filters, with a pooled request and writer per stream;
-- buffer has two fixed-size windows over a body. This library models sahl, buffer, the part of
-- abi.h and abi_impl that serves HTTP filters, shared/utility, sdk.go, and the constants of
-- shared/ and abi/abi.h.
--
-- Base has the shared names: library names, Boolean tests, lists measured by native numbers, and
-- byte strings with maps keyed by them.
--
-- Abi is abi/abi.h: the enumerations that the SDK uses, with the number of each enumerator; the
-- buffers; the callbacks of HTTP filters, by subject, as records of functions on a state of the
-- host that is a parameter, and beside them records of the laws that the comments of abi.h
-- document of calls that succeed and bodies that are available (Abi/Headers, Abi/Body,
-- Abi/Metadata, Abi/FilterState); and the event hooks as data types (Abi/Hooks). Shared is
-- shared/base.go, api.go, network_base.go and access_logger.go: the Go constants and their
-- numbers. Shared/Agreement pairs each constant with the enumerator it is named after.
--
-- Buffer is buffer/buffer.go. Buffer/Ring: Ring, NewRing, Write (write_round is one pass of its
-- loop, write_loop the loop on fuel, write gives it the length of the text as fuel), WriteChunks,
-- Bytes, Reset and Len. Each pass of the loop moves at least one byte of the text unless the ring
-- has size 0, so the fuel is enough; none is enough at size 0. Buffer/HeadTail: HeadTail and its
-- methods. A Go slice is the list of its bytes; nothing else holds the ring's array, so the model
-- passes the ring on.
--
-- Sahl is sahl/. Sahl/Host: the operations of the host's handle that change a stream, recorded in
-- order as a list of calls, and what handlers ask of a Writer. A handler is a function from the
-- writer and the request to the list of its uses of the writer; the host's answer to a callout
-- stands in the use. A response handler also returns the chunk as it leaves it, since it is passed
-- a pointer to the filter's. The closures that a handler passes to a callout or a stream are
-- parameters (Closures of Sahl/Filter). Sahl/Writer: Writer of writer.go with callout.go and
-- stream.go; a panic is a result of its own. Sahl/Filter: sahlFilter of filter.go and response.go,
-- one function for each callback of the host, on the filter's state. Sahl/Filter/Async has the
-- callbacks that answer a callout, a stream or a goroutine. A goroutine of Go runs as one step:
-- its function and then the task that it schedules; the data race between it and the worker thread
-- is not modelled. sync.Pool is a parameter in this sense: what comes out of a pool is any
-- request, writer or destroyed filter. Sahl/Request and Sahl/Text: request.go's header cache and
-- text helpers, over a host header map that is a parameter, and parseStatus of response.go.
-- Sahl/Registry and Sahl/Create: the registry of sahl.go and Create of filter.go. A Go int is its
-- 64-bit pattern, whose sign as_int of Sahl/Text reads; uint32 and byte arithmetic is written
-- modulo its range.
--
-- Impl is abi_impl/internal.go, over the host of Abi. Impl/Buffers: the conversions; Go leaves the
-- pointer of an empty string unspecified, so whether it is nil is a parameter, nil_data.
-- Impl/HeaderMap and Impl/BodyBuffer: dymHeaderMap and dymBodyBuffer, with what reads bodies
-- through them (readBody of sahl/request.go, shared/utility/utility.go) and what sahl's writer
-- does to the response body. Impl/Metadata, Impl/SharedData and Impl/Handle/Values: the methods of
-- the handle on metadata, shared data, attributes, filter state and metrics; a double is its
-- 64-bit pattern, and Go's conversions and strconv are parameters. Impl/GoMap: maps keyed by
-- integers. Impl/Manager: the sharded manager. Impl/Scheduler: dymScheduler; its ids wrap at 2 ^
-- 64. Impl/Handle: dymHttpFilterHandle, its pool and reset; Impl/Handle/Hooks: the exported hooks
-- on a filter, each giving the method or callback that it runs; Impl/Handle/Trace: sequences of
-- hooks and operations in any order, where the operations that the module's code does on the
-- handle are steps of their own, except those of OnDestroy, which destroy has as an argument.
-- Impl/Handle/Host: the methods that call the host. Impl/Config: dymConfigHandle and its hooks.
-- Impl/Module: on_http_filter_new and the managers that the hooks change, over any sequence of new
-- filters and hooks. Impl/Lifecycle: the hooks that make and destroy configurations and per-route
-- configurations, over the registries of sdk.go, which Sdk models once for their three kinds. A
-- pointer that the host passes to a hook is the one that it was given, so it is not nil; a Go
-- interface value is a number. Locks and finalizers are not modelled: calls under a lock are
-- single steps.
--
-- Not modelled: the methods of the handle on spans, sockets, buffer limits, clusters and stream
-- control, GetMostSpecificConfig, abi_impl/network.go and access_logger.go, filter.go of the root,
-- fakes and mocks, logging, HTTPStream.Send, SendTrailers and Reset, Do of sahl/do.go, the texts
-- of errors, and the examples and tests.
pub mod Base
pub mod Abi
pub mod Shared
pub mod Buffer
pub mod Sahl
pub mod Sdk
pub mod Impl
