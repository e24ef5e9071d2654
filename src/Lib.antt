-- ===== src/Lib.antt =====
-- neshare, a peer-to-peer file sharing server and client written in C++ with one thread for each
-- task. This library models the parts of it that carry its logic and proves what makes them
-- correct.
--
-- The parts. A client logs in at the server (ne_server), sends the names of the files that it
-- shares, and searches. A user manager (neUserManager) keeps the users with their file lists; the
-- user objects stay alive while a thread holds a life lock on them. The files themselves are placed
-- in chunks of a memory-mapped allocator (neDiskMemAllocator), and their names are split into
-- keywords (neUserFile, neKeywordManager), by which each list (neUserFileList) and the global map
-- of the searches (neQueryResultManager) find them. Shared counters (neServerStatus) say how much
-- is shared. Messages of users wait in the queues of handler threads (neThreadedHandlerObj). What
-- goes over a connection is a message (ne_common/nemsg*). Clients (ne_client) are peers of each other:
-- one sends the blocks of a file (nePeerUploadManager), another stores them
-- (nePeerDownloadManager). A configuration file (neConfig) holds the settings of both programs.
--
-- Which file models which part:
--   Base         shared helpers: tests, lists, association lists for `std::map`, 32-bit words
--   DiskMem      ne_server/nediskmemallocator.h and .cpp
--   Status       ne_server/neserverstatus.h and .cpp
--   User         ne_server/neuser.h and .cpp
--   UserManager  ne_server/neusermanager.h and .cpp, with the login of
--                ne_server/neshareserverthreads.cpp and rejectNewUser of neserverutils.cpp
--   Keyword      ne_server/nekeyword.h, nekeyword.cpp, nekeywordmanager.h and .cpp
--   UserFile     ne_server/neuserfile.h and .cpp
--   UserFileList ne_server/neuserfilelist.h and .cpp
--   QueryResult  ne_server/nequeryresultmanager.h and .cpp
--   Files        the file structures together, as neusermanager.cpp calls them
--   Message      ne_common/nemsgcommon.h, nemsgconsts.h, nemsglogin.h and .cpp, nemsgstatus.h
--                and .cpp, nemsgentry.h and .cpp
--                Message/FileData has ne_common/nemsgfiledatasend.cpp and nemsgfiledatasendend.cpp
--                Message/Signals: nemsgping, pong, disconnect, peerlogin, peerloginack,
--                peerdisconnect, entrysetstart, entrysetend, searchresults, filedatacancel
--                Message/Notices: nemsgerror, loginfailed, loginack, disconnectack, peererror,
--                forceddisconnect, peerloginfailed, filerequest, pushrequestack (.h and .cpp each)
--                Message/Acks: nemsgfilerequestack, fileresumeack, fileresume (.h and .cpp each)
--                Message/Pushes: nemsgpushrequest, queryresult (.h and .cpp each)
--   Handler      ne_server/nethreadedhandlerobj.h and .cpp, neusermsgobj.h
--   Config       ne_common/neconfig.h and .cpp, with fileToStr of neutils.cpp
--   Download     ne_client/nepeerdownloadmanager.h and .cpp, nepeerdownloadstatus.h and .cpp,
--                with the names of files and discardSocketData of ne_common/neutils.cpp;
--   Upload       ne_client/nepeeruploadmanager.h and .cpp, nepeeruploadstatus.h and .cpp
--
-- State and operations. Each class is a record of its fields; each method is a function from the
-- state before to the result and the state after. Histories are indexed data types whose steps
-- are whole calls, or parts of one that hold a mutex throughout: removeUser, addEntryToUser, alloc and
-- the login of a user lock it several times. For the life of the users each part of a removal and of a
-- login is a step of its own (UserManager/History); elsewhere these calls are taken as runs with no
-- other call in between. Pointers are numbers, 0 is null; an access to an object that is gone, and a
-- failed assertion, is `none`, but for the list that removeUser empties after it has erased it: the
-- manager records that access, whose effect is undefined, and goes on as if it changed nothing.
-- `std::map` is an association list; the order of its entries stands for the order of the pointers.
-- What the operating system answers (open, mmap, the time of day, a socket) is an argument.
--
-- Interfaces. UserManager takes the file structures as the record Catalog of operations and laws,
-- which Files.Instance fulfils with the models of the classes. Handler takes what a turn of a
-- handler thread calls as the record Server. Message takes a connection as the record Connection,
-- since ncSocket is of another library; the laws are that data written can be read in order. Upload
-- and Download meet over such a connection.
--
-- Fuel and bounds. The chunk loop runs on fuel, one more than the number of chunks, which is shown
-- to reach the loop's own test; the digits of a store's number run on one more than that number,
-- which has no more digits; discardSocketData runs on the number of bytes that it discards; all
-- other loops are structural. `unsigned long` has 32 bits. The
-- counters and the life words wrap at 2^32; theorems on life locks have hypotheses that keep the
-- number of locks of a user below 2^31.
--
-- Not modelled: polling and the threads of the user manager, the message handlers, the message of
-- a query, the peers and the connection of the client; logging, MD5 (vendored), the
-- networking classes (ncSocket, ncThread, ncMutex and their kin are another library), starting and
-- stopping threads, the test client.
pub mod Base
pub mod Config
pub mod DiskMem
pub mod Download
pub mod Files
pub mod Handler
pub mod Keyword
pub mod Message
pub mod QueryResult
pub mod Status
pub mod Upload
pub mod User
pub mod UserFile
pub mod UserFileList
pub mod UserManager
